-- ===== src/Controllers.antt =====
-- internal/controller: what the external clients of the reconcilers share. A handler works on the
-- managed resource and on the history of the database connection.
pub mod Connect
pub mod Auditpolicy
pub mod Instancemapping
pub mod Kyma
pub mod Certificate
pub mod Pse
pub mod X509provider
pub mod Role
pub mod Usergroup
pub mod Rolegroup
pub mod User
pub mod Dbschema
use crossplane_provider_hana.Prelude.{Bool, Option, some}
use crossplane_provider_hana.Text.{Text}
use crossplane_provider_hana.Errors.{Result}
use crossplane_provider_hana.Exec.{Exec}
use crossplane_provider_hana.Sql.{Sql, History}
use crossplane_provider_hana.Apis.{Ready}

-- A custom resource (its specification, status.atProvider and Ready condition) and the connection.
pub record Managed (P O : Type 0) : Type 0 where
  pub spec : P
  pub status : O
  pub ready : Option Ready
  pub history : History

-- A status with the annotation of the external name, where a controller sets it.
pub record Annotated (O : Type 0) : Type 0 where
  pub at_provider : O
  pub external_name : Option Text

pub record ExternalObservation : Type 0 where
  pub resource_exists : Bool
  pub resource_up_to_date : Bool

module _ {P O : Type 0} where
  -- A call of the database client.
  abbrev pub on_db : {A : Type 0} → Sql A → Exec (Managed P O) A
  on_db m s = ((m s.history).0, record s { history = (m s.history).1 })

  abbrev pub set_ready : Ready → Exec (Managed P O) (Unit {0})
  set_ready r s = (Result.ok tt, record s { ready = some r })

  abbrev pub set_status : (O → O) → Exec (Managed P O) (Unit {0})
  set_status f s = (Result.ok tt, record s { status = f s.status })

  abbrev pub get_spec : Exec (Managed P O) P
  get_spec s = (Result.ok s.spec, s)

  abbrev pub get_status : Exec (Managed P O) O
  get_status s = (Result.ok s.status, s)
