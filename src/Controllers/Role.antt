-- ===== src/Controllers/Role.antt =====
-- internal/controller/role/reconciler.go: the external client of roles.
pub mod Laws
use crossplane_provider_hana.Prelude.{
  Bool, true, false, ◌&&◌, not, Option, none, some, List, [], ◌==◌, if◌then◌else◌,
}
use crossplane_provider_hana.Text.{Text, lit, text_eq}
use crossplane_provider_hana.Errors.{Err, Result, ok, err, wrap}
use crossplane_provider_hana.Exec.{Exec, pure, fail, ◌>>=◌, ◌>>◌, or_fail}
use crossplane_provider_hana.Sql.{Database}
use crossplane_provider_hana.GoMap.{MapOrder}
use crossplane_provider_hana.Utils.{arrays_equal, arrays_both_diff}
use crossplane_provider_hana.Apis.{
  RoleParameters, RoleObservation, Ready, available, creating, deleting,
}
use crossplane_provider_hana.Clients.Role as Client
use crossplane_provider_hana.Controllers.{
  Managed, ExternalObservation, on_db, set_ready, set_status, get_spec, get_status,
}

abbrev pub RoleResource : Type 0
RoleResource = Managed RoleParameters RoleObservation

abbrev pub Handler : Type 0 → Type 0
Handler A = Exec RoleResource A

unfoldable pub up_to_date : MapOrder → RoleObservation → RoleParameters → Bool
unfolding arrays_equal
up_to_date o observed desired =
    if not (arrays_equal o observed.privileges desired.privileges)
    then false
    else if not (arrays_equal o observed.ldap_groups desired.ldap_groups)
    then false
    else if not (observed.rolegroup == desired.rolegroup)
    then false
    else true

-- A copy of the specification's fields.
unfoldable pub build_desired_parameters : RoleResource → RoleParameters
build_desired_parameters cr = record {
  role_name = cr.spec.role_name;
  schema = cr.spec.schema;
  privileges = cr.spec.privileges;
  ldap_groups = cr.spec.ldap_groups;
  no_grant_to_creator = cr.spec.no_grant_to_creator;
  rolegroup = cr.spec.rolegroup;
}

abbrev desired_parameters : Handler RoleParameters
desired_parameters cr = (ok (build_desired_parameters cr), cr)

module _ (db : Database) (o : MapOrder) (username : Text) where
  unfoldable pub observe : Handler ExternalObservation
  unfolding build_desired_parameters up_to_date
  observe = do
    parameters ← desired_parameters
    observed ← or_fail (wrap (lit "cannot select role: ")) (on_db (Client.read db parameters))
    if not (observed.role_name == parameters.role_name)
        then pure (record { resource_exists = false; resource_up_to_date = false })
        else do
          set_status λ _. observed
          set_ready available
          pure (record {
            resource_exists = true;
            resource_up_to_date = up_to_date o observed parameters;
          })

  unfoldable pub create : Handler (Unit {0})
  unfolding build_desired_parameters
  create = do
    set_ready creating
    parameters ← desired_parameters
    or_fail (wrap (lit "cannot create role: ")) (on_db (Client.create db o username parameters))
    set_status λ _. record {
      role_name = parameters.role_name;
      schema = parameters.schema;
      privileges = parameters.privileges;
      ldap_groups = parameters.ldap_groups;
      rolegroup = parameters.rolegroup;
    }

  -- The three parts of Update, each under its own test.
  unfoldable pub sync_ldap_groups : RoleParameters → List Text → Handler (Unit {0})
  unfolding arrays_both_diff
  sync_ldap_groups parameters observed =
      let (is_equal, to_add, to_remove) = arrays_both_diff o parameters.ldap_groups observed in
      if is_equal then pure tt else do
        or_fail (wrap (lit "cannot update role: "))
            (on_db (Client.update_ldap_groups db parameters to_add to_remove))
        set_status λ s. record s { ldap_groups = parameters.ldap_groups }

  unfoldable pub sync_privileges : RoleParameters → List Text → Handler (Unit {0})
  unfolding arrays_both_diff
  sync_privileges parameters observed =
      let (is_equal, to_add, to_remove) = arrays_both_diff o parameters.privileges observed in
      if is_equal then pure tt else do
        or_fail (wrap (lit "cannot update role: "))
            (on_db (Client.update_privileges db o username parameters to_add to_remove))
        set_status λ s. record s { privileges = parameters.privileges }

  unfoldable pub sync_rolegroup : RoleParameters → Handler (Unit {0})
  sync_rolegroup parameters = do
    status ← get_status
    if status.rolegroup == parameters.rolegroup then pure tt else do
      or_fail (wrap (lit "cannot update role: ")) (on_db (Client.update_rolegroup db parameters))
      set_status λ s. record s { rolegroup = parameters.rolegroup }

  unfoldable pub update : Handler (Unit {0})
  unfolding build_desired_parameters
  update = do
    parameters ← desired_parameters
    status ← get_status
    sync_ldap_groups parameters status.ldap_groups
    sync_privileges parameters status.privileges
    sync_rolegroup parameters

  unfoldable pub delete : Handler (Unit {0})
  unfolding build_desired_parameters
  delete = do
    parameters ← desired_parameters
    set_ready deleting
    or_fail (wrap (lit "cannot drop role: ")) (on_db (Client.delete db parameters))
