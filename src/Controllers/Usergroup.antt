-- ===== src/Controllers/Usergroup.antt =====
-- internal/controller/usergroup/reconciler.go: the external client of user groups.
pub mod Laws
use crossplane_provider_hana.Prelude.{
  Bool, true, false, ◌&&◌, ◌||◌, not, Option, none, some, List, [], ◌==◌, if◌then◌else◌,
}
use crossplane_provider_hana.Text.{Text, lit, text_eq}
use crossplane_provider_hana.Errors.{Err, Result, ok, err, wrap}
use crossplane_provider_hana.Exec.{Exec, pure, fail, ◌>>=◌, ◌>>◌, or_fail}
use crossplane_provider_hana.Sql.{Database}
use crossplane_provider_hana.GoMap.{GoMap, MapOrder}
use crossplane_provider_hana.Utils.{map_diff_only_desired}
use crossplane_provider_hana.Apis.{
  UsergroupParameters, UsergroupObservation, Ready, available, creating, deleting,
}
use crossplane_provider_hana.Privilege.Client.{is_nil}
use crossplane_provider_hana.Clients.Usergroup as Client
use crossplane_provider_hana.Controllers.{
  Managed, ExternalObservation, on_db, set_ready, set_status, get_status,
}

abbrev pub UsergroupResource : Type 0
UsergroupResource = Managed UsergroupParameters UsergroupObservation

abbrev pub Handler : Type 0 → Type 0
Handler A = Exec UsergroupResource A

abbrev pub bool_eq : Bool → Bool → Bool
bool_eq true b = b
bool_eq false b = not b

unfoldable pub up_to_date : MapOrder → UsergroupObservation → UsergroupParameters → Bool
unfolding map_diff_only_desired
up_to_date o observed desired =
    if not (bool_eq observed.disable_user_admin desired.disable_user_admin)
    then false
    else is_nil (map_diff_only_desired o observed.parameters desired.parameters)

-- A copy of the specification's fields.
unfoldable pub build_desired_parameters : UsergroupResource → UsergroupParameters
build_desired_parameters cr = record {
  usergroup_name = cr.spec.usergroup_name;
  disable_user_admin = cr.spec.disable_user_admin;
  no_grant_to_creator = cr.spec.no_grant_to_creator;
  parameters = cr.spec.parameters;
  enable_parameter_set = cr.spec.enable_parameter_set;
}

abbrev desired_parameters : Handler UsergroupParameters
desired_parameters cr = (ok (build_desired_parameters cr), cr)

-- The parameters of Delete: the name alone.
abbrev named : Text → UsergroupParameters
named name = record {
  usergroup_name = name;
  disable_user_admin = false;
  no_grant_to_creator = false;
  parameters = [];
  enable_parameter_set = [];
}

module _ (db : Database) where
  -- The first part of Update.
  unfoldable pub sync_disable_user_admin : UsergroupParameters → Handler (Unit {0})
  sync_disable_user_admin parameters = do
    status ← get_status
    if bool_eq status.disable_user_admin parameters.disable_user_admin then pure tt else do
      or_fail (wrap (lit "cannot update usergroup: "))
          (on_db (Client.update_disable_user_admin db parameters))
      set_status λ s. record s { disable_user_admin = parameters.disable_user_admin }

  unfoldable pub delete : Handler (Unit {0})
  delete = do
    set_ready deleting
    name ← λ cr. (ok cr.spec.usergroup_name, cr)
    or_fail (wrap (lit "cannot drop usergroup: ")) (on_db (Client.delete db (named name)))

module _ (db : Database) (o : MapOrder) where
  unfoldable pub observe : Handler ExternalObservation
  unfolding build_desired_parameters up_to_date
  observe = do
    parameters ← desired_parameters
    observed ← or_fail (wrap (lit "cannot select usergroup: ")) (on_db (Client.read db parameters))
    if not (observed.usergroup_name == parameters.usergroup_name)
        then pure (record { resource_exists = false; resource_up_to_date = false })
        else do
          set_status λ _. observed
          set_ready available
          pure (record {
            resource_exists = true;
            resource_up_to_date = up_to_date o observed parameters;
          })

  unfoldable pub create : Handler (Unit {0})
  unfolding build_desired_parameters
  create = do
    set_ready creating
    parameters ← desired_parameters
    or_fail (wrap (lit "cannot create usergroup: ")) (on_db (Client.create db o parameters))
    set_status λ _. record {
      usergroup_name = parameters.usergroup_name;
      disable_user_admin = true;
      parameters = parameters.parameters;
    }

  -- The second part of Update.
  unfoldable pub sync_parameters : UsergroupParameters → Handler (Unit {0})
  unfolding map_diff_only_desired
  sync_parameters parameters = do
    status ← get_status
    let parameters_to_update = map_diff_only_desired o status.parameters parameters.parameters
    if is_nil parameters_to_update then pure tt else do
      or_fail (wrap (lit "cannot update usergroup: "))
          (on_db (Client.update_parameters db o parameters parameters_to_update))
      set_status λ s. record s { parameters = parameters.parameters }

  unfoldable pub update : Handler (Unit {0})
  unfolding build_desired_parameters
  update = do
    parameters ← desired_parameters
    sync_disable_user_admin db parameters
    sync_parameters parameters
