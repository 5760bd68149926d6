-- ===== src/Controllers/Rolegroup.antt =====
-- internal/controller/rolegroup/reconciler.go: the external client of role groups.
pub mod Laws
use crossplane_provider_hana.Prelude.{Bool, true, false, not, ◌==◌, if◌then◌else◌}
use crossplane_provider_hana.Text.{Text, lit, text_eq}
use crossplane_provider_hana.Errors.{ok, wrap}
use crossplane_provider_hana.Exec.{Exec, pure, ◌>>=◌, ◌>>◌, or_fail}
use crossplane_provider_hana.Sql.{Database}
use crossplane_provider_hana.Apis.{
  RolegroupParameters, RolegroupObservation, available, creating, deleting,
}
use crossplane_provider_hana.Clients.Rolegroup as Client
use crossplane_provider_hana.Controllers.{
  Managed, ExternalObservation, on_db, set_ready, set_status, get_status,
}
use crossplane_provider_hana.Controllers.Usergroup.{bool_eq}

abbrev pub RolegroupResource : Type 0
RolegroupResource = Managed RolegroupParameters RolegroupObservation

abbrev pub Handler : Type 0 → Type 0
Handler A = Exec RolegroupResource A

unfoldable pub up_to_date : RolegroupObservation → RolegroupParameters → Bool
up_to_date observed desired = bool_eq observed.disable_role_admin desired.disable_role_admin

-- A copy of the specification's fields.
unfoldable pub build_desired_parameters : RolegroupResource → RolegroupParameters
build_desired_parameters cr = record {
  rolegroup_name = cr.spec.rolegroup_name;
  disable_role_admin = cr.spec.disable_role_admin;
  no_grant_to_creator = cr.spec.no_grant_to_creator;
  for_grants_on_tenant_objects = cr.spec.for_grants_on_tenant_objects;
}

abbrev desired_parameters : Handler RolegroupParameters
desired_parameters cr = (ok (build_desired_parameters cr), cr)

-- The parameters of Delete: the name alone.
abbrev named : Text → RolegroupParameters
named name = record {
  rolegroup_name = name;
  disable_role_admin = false;
  no_grant_to_creator = false;
  for_grants_on_tenant_objects = false;
}

module _ (db : Database) where
  unfoldable pub observe : Handler ExternalObservation
  unfolding build_desired_parameters up_to_date
  observe = do
    parameters ← desired_parameters
    observed ← or_fail (wrap (lit "cannot select rolegroup: ")) (on_db (Client.read db parameters))
    if not (observed.rolegroup_name == parameters.rolegroup_name)
        then pure (record { resource_exists = false; resource_up_to_date = false })
        else do
          set_status λ _. observed
          set_ready available
          pure (record {
            resource_exists = true;
            resource_up_to_date = up_to_date observed parameters;
          })

  unfoldable pub create : Handler (Unit {0})
  unfolding build_desired_parameters
  create = do
    set_ready creating
    parameters ← desired_parameters
    or_fail (wrap (lit "cannot create rolegroup: ")) (on_db (Client.create db parameters))
    set_status λ _. record {
      rolegroup_name = parameters.rolegroup_name;
      disable_role_admin = parameters.disable_role_admin;
    }

  unfoldable pub update : Handler (Unit {0})
  unfolding build_desired_parameters
  update = do
    parameters ← desired_parameters
    status ← get_status
    if bool_eq status.disable_role_admin parameters.disable_role_admin then pure tt else do
      or_fail (wrap (lit "cannot update rolegroup: "))
          (on_db (Client.update_disable_role_admin db parameters))
      set_status λ s. record s { disable_role_admin = parameters.disable_role_admin }

  unfoldable pub delete : Handler (Unit {0})
  delete = do
    set_ready deleting
    name ← λ cr. (ok cr.spec.rolegroup_name, cr)
    or_fail (wrap (lit "cannot drop rolegroup: ")) (on_db (Client.delete db (named name)))
