-- ===== src/Tests.antt =====
-- Runs of the model at concrete inputs, and the theorems applied to them.
mod Secrets
mod Schemas
mod Observations
mod Kyma
mod Mappings
mod Certificates
mod Interleavings
mod Connections
mod Policies
mod Data
mod Parsing
mod Collections
mod Statements
mod Reconcilers
