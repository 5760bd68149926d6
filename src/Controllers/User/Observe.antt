-- ===== src/Controllers/User/Observe.antt =====
-- Observe of the user's external client.
pub mod Laws
pub mod Outcomes
use crossplane_provider_hana.Prelude.{
  ℕ, Bool, true, false, ◌&&◌, not, Option, none, some, List, [], ◌∷◌, ◌==◌, if◌then◌else◌, nat_eq,
  length,
}
use crossplane_provider_hana.Text.{Text, lit, text_eq}
use crossplane_provider_hana.Errors.{Err, Result, ok, err, wrap, message, as_auth}
use crossplane_provider_hana.Exec.{pure, lift, ◌>>=◌, ◌>>◌, relabel}
use crossplane_provider_hana.Sql.{Database}
use crossplane_provider_hana.GoMap.{GoMap, MapOrder, lookup}
use crossplane_provider_hana.Utils.{arrays_equal}
use crossplane_provider_hana.Apis.{
  UserParameters, UserObservation, X509UserMapping, mapping_eq, Password, Ready, available,
  unavailable,
}
use crossplane_provider_hana.Privilege.Queries.{filter_managed_privileges}
use crossplane_provider_hana.Clients.User.Read.{read}
use crossplane_provider_hana.Controllers.{
  ExternalObservation, set_ready, set_status, get_spec, get_status,
}
use crossplane_provider_hana.Controllers.Usergroup.{bool_eq}
use crossplane_provider_hana.Controllers.User.{Kube, Handler}
use crossplane_provider_hana.Controllers.User.Inputs.{handle_defaults, convert, get_password}

abbrev is_true : Option Bool → Bool
is_true none = false
is_true (some b) = b

abbrev is_unset : {A : Type 0} → Option A → Bool
is_unset none = true
is_unset (some a) = false

abbrev pub password_matches : Option Bool → Option Password → Bool
password_matches verdict (some pw) = is_true verdict
password_matches verdict none = is_unset verdict

unfoldable pub is_password_up_to_date : UserObservation → UserParameters → Bool
is_password_up_to_date observed desired =
    password_matches observed.password_up_to_date desired.authentication.password

abbrev pub no_mappings : List X509UserMapping → Bool
no_mappings [] = true
no_mappings (m ∷ ms) = false

abbrev pub mappings_match : MapOrder → List X509UserMapping → Option (List X509UserMapping) → Bool
mappings_match o observed (some desired) = arrays_equal o observed desired
mappings_match o observed none = no_mappings observed

unfoldable pub is_x509_mappings_up_to_date : MapOrder → UserObservation → UserParameters → Bool
unfolding arrays_equal
is_x509_mappings_up_to_date o observed desired =
    mappings_match o observed.x509_providers desired.authentication.x509_providers

abbrev pub same_text : Option Text → Text → Bool
same_text none s = false
same_text (some t) s = t == s

abbrev pub same_bool : Option Bool → Bool → Bool
same_bool none b = false
same_bool (some a) b = bool_eq a b

-- Every entry of the list is an entry of the map.
unfoldable pub entries_in : GoMap Text Text → List (Text × Text) → Bool
unfolding lookup
entries_in m [] = true
entries_in m ((key, value) ∷ entries) = same_text (lookup m key) value && entries_in m entries

-- maps.Equal
unfoldable pub maps_equal : GoMap Text Text → GoMap Text Text → Bool
unfolding entries_in
maps_equal m1 m2 = nat_eq (length m1) (length m2) && entries_in m2 m1

unfoldable pub up_to_date : MapOrder → UserObservation → UserParameters → Bool
unfolding is_password_up_to_date is_x509_mappings_up_to_date maps_equal arrays_equal
up_to_date o observed desired =
    is_password_up_to_date observed desired
    && is_x509_mappings_up_to_date o observed desired
    && same_text observed.usergroup desired.usergroup
    && same_bool observed.is_password_lifetime_check_enabled
        desired.is_password_lifetime_check_enabled
    && maps_equal observed.parameters desired.parameters
    && arrays_equal o observed.privileges desired.privileges
    && arrays_equal o observed.roles desired.roles

-- handleAuthError: an unknown error is labelled and ends Observe; an authentication error is kept
-- for the condition.
unfoldable pub handle_auth_error : Option Err → Result (Option Err)
unfolding as_auth
handle_auth_error none = ok none
handle_auth_error (some e) = elim (as_auth e) [
  | some a ↦ ok (some e)
  | none ↦ err (wrap (lit "cannot select user: ") e)
]

abbrev pub condition : Option Err → Ready
condition none = available
condition (some e) = unavailable (message e)

-- The observation, and the authentication error that was kept.
abbrev keep_auth :
    {S : Type 0} → (UserObservation × Option Err) × S → Result (UserObservation × Option Err) × S
keep_auth ((observed, e), s) =
    (elim (handle_auth_error e) [ ok kept ↦ ok (observed, kept) | err x ↦ err x ], s)

module _ (db : Database) (kube : Kube) (o : MapOrder) (fresh : ℕ → ℕ) (default_schema : Text) where
  abbrev pub read_user : UserParameters → Text → Handler (UserObservation × Option Err)
  read_user parameters password cr =
      let (r, h) = keep_auth (read db parameters password cr.history) in
      (r, record cr { history = h })

  -- What Observe does with a user that is there.
  unfoldable pub observe_existing :
      UserParameters → UserObservation → Option Err → Handler ExternalObservation
  unfolding up_to_date filter_managed_privileges message
  observe_existing parameters observed auth_error = do
    spec ← get_spec
    status ← get_status
    privileges ← lift (
        relabel (wrap (lit "cannot filter privileges: ")) (
          filter_managed_privileges observed.privileges parameters.privileges status.privileges
            spec.privilege_management_policy default_schema))
    let managed = record observed { privileges = privileges }
    set_status λ _. managed
    set_ready (condition auth_error)
    pure (record { resource_exists = true; resource_up_to_date = up_to_date o managed parameters })

  unfoldable pub observe : Handler ExternalObservation
  unfolding handle_defaults convert get_password handle_auth_error observe_existing
  observe = do
    spec ← get_spec
    parameters ← lift (convert default_schema (handle_defaults fresh spec))
    password ← lift (relabel (wrap (lit "cannot get password secret: ")) (get_password kube spec))
    found ← read_user parameters password
    if not (same_text (found.0).username parameters.username)
        then pure (record { resource_exists = false; resource_up_to_date = false })
        else observe_existing parameters found.0 found.1
