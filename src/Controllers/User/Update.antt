-- ===== src/Controllers/User/Update.antt =====
-- Update, Create and Delete of the user's external client.
pub mod Laws
use crossplane_provider_hana.Prelude.{ℕ, false, none, List, [], ◌∷◌}
use crossplane_provider_hana.Text.{Text, lit}
use crossplane_provider_hana.Errors.{Result, ok, wrap, bind}
use crossplane_provider_hana.Exec.{pure, lift, ◌>>=◌, ◌>>◌, or_fail, relabel}
use crossplane_provider_hana.Sql.{Database}
use crossplane_provider_hana.GoMap.{MapOrder}
use crossplane_provider_hana.Apis.{UserSpec, UserParameters, UserObservation, creating, deleting}
use crossplane_provider_hana.Privilege.Queries.{filter_managed_privileges}
use crossplane_provider_hana.Clients.User as Client
use crossplane_provider_hana.Controllers.{on_db, set_ready, get_spec, get_status}
use crossplane_provider_hana.Controllers.User.{Kube, Handler}
use crossplane_provider_hana.Controllers.User.Inputs.{
  build_desired_parameters, build_observed_parameters, get_password, resolve_user_mappings,
}
use crossplane_provider_hana.Controllers.User.Steps.{
  mappings_of, update_privileges, update_roles, update_parameters, update_x509_providers,
  update_usergroup, update_password_lifetime_check, update_password,
}

-- The parameters of Delete: the name alone.
abbrev named : Text → UserParameters
named username = record {
  username = username;
  restricted_user = false;
  authentication = record { password = none; x509_providers = none };
  privileges = [];
  roles = [];
  parameters = [];
  usergroup = [];
  is_password_lifetime_check_enabled = false;
}

abbrev pub ConnectionDetails : Type 0
ConnectionDetails = List (Text × Text)

module _ (db : Database) (kube : Kube) (o : MapOrder) (fresh : ℕ → ℕ) (username : Text) where
  -- The desired parameters, and the status with its parameters in upper case and the managed
  -- privileges alone.
  unfoldable pub build_update_inputs :
      UserSpec → UserObservation → Result (UserParameters × UserObservation)
  unfolding build_desired_parameters build_observed_parameters filter_managed_privileges
  build_update_inputs spec status = bind (build_desired_parameters o fresh username spec) λ desired.
      bind
        (relabel (wrap (lit "cannot filter privileges: ")) (
          filter_managed_privileges status.privileges spec.for_provider.privileges status.privileges
            spec.privilege_management_policy username))
        λ privileges.
          ok
            (desired, record (build_observed_parameters o fresh status) { privileges = privileges })

  -- The steps in their order; a step that fails ends Update.
  unfoldable pub update_steps : UserParameters → UserObservation → Handler (Unit {0})
  update_steps desired observed = do
    update_privileges db o username desired observed
    update_roles db o desired observed
    update_parameters db o desired observed
    update_usergroup db desired observed
    update_x509_providers db o kube desired observed
    update_password_lifetime_check db desired observed
    update_password db kube desired

  unfoldable pub update : Handler (Unit {0})
  unfolding build_update_inputs update_steps
  update = do
    spec ← get_spec
    status ← get_status
    inputs ← lift (build_update_inputs spec status)
    update_steps inputs.0 inputs.1

  unfoldable pub create : Handler ConnectionDetails
  unfolding get_password resolve_user_mappings
  create = do
    set_ready creating
    spec ← get_spec
    let parameters = spec.for_provider
    password ← or_fail (wrap (lit "cannot create user: ")) (lift (get_password kube spec))
    providers ←
        or_fail (wrap (lit "cannot create user: "))
          (lift (resolve_user_mappings kube spec.namespace (mappings_of parameters)))
    or_fail (wrap (lit "cannot create user: "))
        (on_db (Client.create db o username parameters password providers))
    pure ((lit "user", parameters.username) ∷ (lit "password", password) ∷ [])

  unfoldable pub delete : Handler (Unit {0})
  delete = do
    set_ready deleting
    spec ← get_spec
    or_fail (wrap (lit "cannot drop user: "))
        (on_db (Client.delete db (named spec.for_provider.username)))
