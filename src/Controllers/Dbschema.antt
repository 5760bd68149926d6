-- ===== src/Controllers/Dbschema.antt =====
-- internal/controller/dbschema/reconciler.go: the external client of database schemas.
pub mod Laws
use crossplane_provider_hana.Prelude.{true, false, not, [], ◌==◌, if◌then◌else◌}
use crossplane_provider_hana.Text.{Text, lit, text_eq}
use crossplane_provider_hana.Errors.{wrap}
use crossplane_provider_hana.Exec.{Exec, pure, ◌>>=◌, ◌>>◌, or_fail}
use crossplane_provider_hana.Sql.{Database}
use crossplane_provider_hana.Apis.{
  DbSchemaParameters, DbSchemaObservation, available, creating, deleting,
}
use crossplane_provider_hana.Clients.Dbschema as Client
use crossplane_provider_hana.Controllers.{Managed, ExternalObservation, on_db, set_ready, get_spec}

abbrev pub DbSchemaResource : Type 0
DbSchemaResource = Managed DbSchemaParameters DbSchemaObservation

abbrev pub Handler : Type 0 → Type 0
Handler A = Exec DbSchemaResource A

-- The parameters of Observe and Delete: the name alone.
abbrev pub named : Text → DbSchemaParameters
named name = record { schema_name = name; owner = [] }

module _ (db : Database) where
  unfoldable pub observe : Handler ExternalObservation
  observe = do
    spec ← get_spec
    observed ←
        or_fail (wrap (lit "cannot select schema: "))
          (on_db (Client.read db (named spec.schema_name)))
    if not (observed.schema_name == spec.schema_name)
        then pure (record { resource_exists = false; resource_up_to_date = false })
        else do
          set_ready available
          pure (record { resource_exists = true; resource_up_to_date = true })

  unfoldable pub create : Handler (Unit {0})
  create = do
    spec ← get_spec
    set_ready creating
    or_fail (wrap (lit "cannot create schema: ")) (on_db (Client.create db spec))

  -- Update only writes to the log.
  unfoldable pub update : Handler (Unit {0})
  update = pure tt

  unfoldable pub delete : Handler (Unit {0})
  delete = do
    spec ← get_spec
    set_ready deleting
    or_fail (wrap (lit "cannot drop schema: ")) (on_db (Client.delete db (named spec.schema_name)))
