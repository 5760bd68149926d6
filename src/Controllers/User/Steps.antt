-- ===== src/Controllers/User/Steps.antt =====
-- The steps of Update of the user's external client, each under its own test.
pub mod Laws
pub mod Outcomes
use crossplane_provider_hana.Prelude.{
  Bool, true, false, not, Option, none, some, List, [], ◌==◌, if◌then◌else◌,
}
use crossplane_provider_hana.Text.{Text, lit, text_eq}
use crossplane_provider_hana.Errors.{wrap, nil_dereference}
use crossplane_provider_hana.Exec.{pure, fail, lift, ◌>>=◌, ◌>>◌, or_fail}
use crossplane_provider_hana.Sql.{Database}
use crossplane_provider_hana.GoMap.{MapOrder}
use crossplane_provider_hana.Utils.{arrays_both_diff, maps_both_diff}
use crossplane_provider_hana.Apis.{
  UserParameters, UserObservation, X509UserMapping, mapping_eq, Password,
}
use crossplane_provider_hana.Clients.User as Client
use crossplane_provider_hana.Controllers.{on_db, set_status, get_spec, get_status}
use crossplane_provider_hana.Controllers.Usergroup.{bool_eq}
use crossplane_provider_hana.Controllers.User.{Kube, Handler}
use crossplane_provider_hana.Controllers.User.Inputs.{get_password, resolve_user_mappings}

abbrev cannot_update : {A : Type 0} → Handler A → Handler A
cannot_update m = or_fail (wrap (lit "cannot update user: ")) m

abbrev pub mappings_of : UserParameters → List X509UserMapping
mappings_of desired = elim desired.authentication.x509_providers [ none ↦ [] | some ms ↦ ms ]

-- `observed != nil && *observed == desired`
abbrev pub is_text : Option Text → Text → Bool
is_text none s = false
is_text (some t) s = t == s

abbrev pub is_bool : Option Bool → Bool → Bool
is_bool none b = false
is_bool (some a) b = bool_eq a b

abbrev is_false : Option Bool → Bool
is_false none = false
is_false (some b) = not b

module _ (db : Database) (o : MapOrder) (username : Text) where
  unfoldable pub update_privileges : UserParameters → UserObservation → Handler (Unit {0})
  unfolding arrays_both_diff
  update_privileges desired observed =
      let (is_equal, to_grant, to_revoke) =
        arrays_both_diff o desired.privileges observed.privileges in
      if is_equal then pure tt else do
        cannot_update
            (on_db (Client.update_privileges db o username desired.username to_grant to_revoke))
        set_status λ s. record s { privileges = desired.privileges }

module _ (db : Database) (o : MapOrder) where
  unfoldable pub update_roles : UserParameters → UserObservation → Handler (Unit {0})
  unfolding arrays_both_diff
  update_roles desired observed =
      let (is_equal, to_grant, to_revoke) = arrays_both_diff o desired.roles observed.roles in
      if is_equal then pure tt else do
        cannot_update (on_db (Client.update_roles db desired.username to_grant to_revoke))
        set_status λ s. record s { roles = desired.roles }

  unfoldable pub update_parameters : UserParameters → UserObservation → Handler (Unit {0})
  unfolding maps_both_diff
  update_parameters desired observed =
      let (is_equal, to_set, to_clear) = maps_both_diff o desired.parameters observed.parameters in
      if is_equal then pure tt else do
        cannot_update (on_db (Client.update_parameters db o desired.username to_set to_clear))
        set_status λ s. record s { parameters = desired.parameters }

  unfoldable pub update_x509_providers :
      Kube → UserParameters → UserObservation → Handler (Unit {0})
  unfolding arrays_both_diff resolve_user_mappings
  update_x509_providers kube desired observed =
      let (is_equal, to_add, to_remove) =
        arrays_both_diff o (mappings_of desired) observed.x509_providers in
      do
        spec ← get_spec
        add ← cannot_update (lift (resolve_user_mappings kube spec.namespace to_add))
        remove ← cannot_update (lift (resolve_user_mappings kube spec.namespace to_remove))
        if is_equal then pure tt else do
          cannot_update (on_db (Client.update_x509_providers db desired.username add remove))
          set_status λ s. record s { x509_providers = mappings_of desired }

module _ (db : Database) where
  unfoldable pub update_usergroup : UserParameters → UserObservation → Handler (Unit {0})
  update_usergroup desired observed =
      if is_text observed.usergroup desired.usergroup then pure tt else do
        cannot_update (on_db (Client.update_usergroup db desired.username desired.usergroup))
        set_status λ s. record s { usergroup = some desired.usergroup }

  unfoldable pub update_password_lifetime_check :
      UserParameters → UserObservation → Handler (Unit {0})
  update_password_lifetime_check desired observed =
      if is_bool observed.is_password_lifetime_check_enabled
        desired.is_password_lifetime_check_enabled
      then pure tt
      else do
        cannot_update (
            on_db (
              Client.update_password_lifetime_check db desired.username
                desired.is_password_lifetime_check_enabled))
        set_status λ s. record s {
          is_password_lifetime_check_enabled = some desired.is_password_lifetime_check_enabled;
        }

  -- `*cr.Status.AtProvider.IsPasswordEnabled` of a nil pointer panics.
  unfoldable pub toggle_password : UserParameters → Option Bool → Handler (Unit {0})
  toggle_password desired none = fail nil_dereference
  toggle_password desired (some enabled) =
      cannot_update (on_db (Client.toggle_password_authentication db desired.username enabled))

  abbrev set_password : Kube → UserParameters → Password → Handler (Unit {0})
  set_password kube desired pw = do
    spec ← get_spec
    password ← cannot_update (lift (get_password kube spec))
    cannot_update
        (on_db (Client.update_password db desired.username password pw.force_first_password_change))
    set_status λ s. record s { password_up_to_date = some true }

  abbrev password_of : Option Bool → Option Password → Option Password
  password_of enabled none = none
  password_of enabled (some pw) = if is_false enabled then none else some pw

  abbrev change_password :
      Kube → UserParameters → Option Bool → Option Password → Handler (Unit {0})
  change_password kube desired enabled none = toggle_password desired enabled
  change_password kube desired enabled (some pw) = set_password kube desired pw

  unfoldable pub update_password : Kube → UserParameters → Handler (Unit {0})
  unfolding toggle_password get_password
  update_password kube desired = do
    spec ← get_spec
    status ← get_status
    if not (is_false status.password_up_to_date)
        then pure tt
        else change_password kube desired status.is_password_enabled
            (password_of status.is_password_enabled spec.for_provider.authentication.password)
