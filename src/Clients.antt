-- ===== src/Clients.antt =====
-- internal/clients/hana: a client for each kind of database object.
pub mod Certificate
pub mod Pse
pub mod X509provider
pub mod Pool
pub mod Auditpolicy
pub mod Role
pub mod Usergroup
pub mod Rolegroup
pub mod User
pub mod Dbschema
