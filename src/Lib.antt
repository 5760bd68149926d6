-- ===== src/Lib.antt =====
-- Verification library of the Crossplane provider for SAP HANA.
--
-- The program reconciles Kubernetes resources with a HANA database. A reconciler
-- (internal/controller/<kind>/reconciler.go) has four handlers: Observe reads the database and says
-- whether the object is there and up to date, Create, Update and Delete send statements. A handler
-- calls the client of its kind (internal/clients/hana/<kind>/<kind>_client.go); the clients of roles
-- and users share the PrivilegeClient (internal/clients/hana/privilege/privilege.go), and all use
-- the helpers of internal/utils/utils.go. A connector reads the credentials that the resource's
-- ProviderConfig names and takes a connection from the pool (internal/clients/hana/hana.go). Instance
-- mappings are kept by a REST service (internal/clients/hanacloud), and a KymaInstanceMapping
-- (internal/controller/kymainstancemapping) keeps an instance mapping and a secret as its children.
--
-- Files and what they model:
--   Prelude, Text, GoMap     shared names; strings as lists of code points; Go maps as association
--                            lists with distinct keys, visited in an order that is a parameter
--   Numbers                  Go's int, and its texts in base 10
--   Errors, Exec, Sql        Go errors with wrapping; handlers that may fail and keep what they wrote;
--                            internal/clients/xsql/common.go and what is used of database/sql, with
--                            the begin and the end of a transaction
--   Goroutines               the goroutines of the clients of X.509 providers and of personal security
--                            environments, under a schedule; Goroutines/Laws and Goroutines/Schedules
--                            hold the lemmas
--   Hanacloud                internal/clients/hanacloud/client.go and instancemapping/client.go
--   Regex                    the regular expressions that privilege.go uses, with a matcher
--   Utils                    internal/utils/utils.go: Utils.arrays_both_diff is ArraysBothDiff, and so
--                            on; Utils/Maps, Utils/Sets and Utils/Arrays hold the lemmas,
--                            Utils/Trimming is TrimOuterDoubleQuotes, and Utils/Escapes the
--                            preprocessing of privileges
--   Privilege                internal/clients/hana/privilege/privilege.go: data and printing;
--                            Privilege/Patterns and Privilege/Parse the parsing, Privilege/Groups the
--                            grouping, Privilege/Client GRANT and REVOKE, Privilege/Queries the queries
--                            and FilterManagedPrivileges; Privilege/RoleMatch, Privilege/RoleForms,
--                            Privilege/Fuel and the modules named Laws and Bodies hold the lemmas
--   Apis                     apis/admin/v1alpha1 and apis/schema/v1alpha1: parameters and observations
--   Clients                  internal/clients/hana/role, usergroup, rolegroup, user, dbschema and
--                            auditpolicy; Clients/User has Credentials (validation of passwords) and
--                            Read; Clients/Pool is hana.go, Clients/X509provider and Clients/Pse are
--                            x509provider and personalsecurityenvironment, Clients/Certificate is
--                            certificate with its helpers
--   Controllers              internal/controller/role, usergroup, rolegroup, user, dbschema,
--                            auditpolicy, x509provider, certificate and, as Pse,
--                            personalsecurityenvironment; a handler works on the resource and on the
--                            history of the connection; Controllers/User has Inputs, Secrets,
--                            Observe, Steps and Update; Controllers/Connect has the connectors;
--                            Controllers/Instancemapping is instancemapping, and Controllers/Kyma is
--                            kymainstancemapping with internal/clients/remotecluster
--   Tests                    runs at concrete inputs, and the theorems applied to them
--
-- A function of the source keeps its name in snake case. The state of a client is the list of the
-- statements sent so far; a handler has type S → Result A × S, so the state is there beside an error.
--
-- The goroutines of one call take turns by a schedule, a list of their numbers; at its end those left
-- finish one after the other. The states of the other parts are the pool, the list of the requests
-- that were sent, and the list of what a cluster was asked to write.
--
-- Parameters of the model: how the database answers a statement (Sql.Database, any function of all
-- that was sent before), and likewise the REST service (Hanacloud.Http) and the management cluster
-- (Controllers.Kyma.Management); the order in which range visits a map (GoMap.MapOrder, any
-- permutation); what a handler or a connector reads from Kubernetes; the driver, the key derivation
-- and the writing of URLs (Clients.Pool.Libraries); PEM and ASN.1 (Clients.Certificate.Encodings); the
-- addresses that DeepCopy gives to objects behind pointers (fresh, any function). That SYS.SCHEMAS
-- lists what CREATE SCHEMA and DROP SCHEMA did is a hypothesis (Controllers.Dbschema.Laws.IsCatalog).
--
-- Loops are structural recursion. The matcher's loop over x* runs on fuel, the length of the rest of
-- the text, which bounds the rounds since the bodies of the patterns' stars take a character each time
-- (Regex/Fuel, Privilege/Fuel). The loop over a PEM chain runs on the length of the data and one more,
-- since a block takes characters away (Clients/Certificate/Chain).
--
-- Not modelled: logging, contexts and Close; the assertions on the kind of a resource; Setup, which
-- registers the controllers, and the program's main; letters outside ASCII in changes of case; what
-- a function returns beside an error where no caller reads it; generated code. Instants are their RFC
-- 3339 texts. A Close that runs in a goroutine counts as done when it is started.
pub mod Prelude
pub mod Text
pub mod Numbers
pub mod GoMap
pub mod Utils
pub mod Errors
pub mod Exec
pub mod Sql
pub mod Goroutines
pub mod Hanacloud
pub mod Regex
pub mod Privilege
pub mod Apis
pub mod Clients
pub mod Controllers
pub mod Tests
