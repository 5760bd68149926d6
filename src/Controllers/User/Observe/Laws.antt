-- ===== src/Controllers/User/Observe/Laws.antt =====
-- What the test of Observe says of a user.
use crossplane_provider_hana.Prelude.{
  Bool, true, false, Option, none, some, List, [], ◌∷◌, ◌==◌, contains, ◌≡◌, refl, sym, ap, ◌∙◌,
  ◌↔◌, arith, Bool-cases, inl, inr, beq_self, ℕ_eq,
}
use crossplane_provider_hana.Text.{Text, text_eq}
use crossplane_provider_hana.GoMap.{GoMap, MapOrder, lookup, IsMap, nodup}
use crossplane_provider_hana.GoMap.Laws.{lookup-some}
use crossplane_provider_hana.Utils.Maps.{same_keys, equal_length}
use crossplane_provider_hana.Utils.Arrays.{arrays_equal_iff}
use crossplane_provider_hana.Apis.{
  UserParameters, UserObservation, X509UserMapping, mapping_eq, Reference, Password,
}
use crossplane_provider_hana.Controllers.User.Observe.{
  entries_in, maps_equal, same_text, same_bool, no_mappings, mappings_match, up_to_date,
  is_x509_mappings_up_to_date, is_password_up_to_date, password_matches,
}

pub same_text_iff : (x : Option Text) (s : Text) → (same_text x s ≡ true) ↔ (x ≡ some s)
same_text_iff none s = (λ h. absurd (ground arith), λ h. absurd (ground arith))
same_text_iff (some t) s =
    (λ h. ap some ((text_eq.beq_iff t s).0 h), λ h. (text_eq.beq_iff t s).1 (ground arith))

same_bool_iff : (x : Option Bool) (b : Bool) → (same_bool x b ≡ true) ↔ (x ≡ some b)
same_bool_iff none b = (λ h. absurd (ground arith), λ h. absurd (ground arith))
same_bool_iff (some true) true = (λ h. refl, λ h. refl)
same_bool_iff (some true) false = (λ h. absurd (ground arith), λ h. absurd (ground arith))
same_bool_iff (some false) true = (λ h. absurd (ground arith), λ h. absurd (ground arith))
same_bool_iff (some false) false = (λ h. refl, λ h. refl)

entries_found :
    (m entries : GoMap Text Text)
    → entries_in m entries ≡ true
    → (j x : Text) → lookup entries j ≡ some x
    → lookup m j ≡ some x
unfolding entries_in lookup
entries_found m [] h j x p = absurd (ground arith)
entries_found m ((key, value) ∷ entries) h j x p = elim (Bool-cases (key == j)) [
  | inl same ↦
      let e = (text_eq.beq_iff key j).0 same in
      let v : value ≡ x = (let q : some value ≡ some x = ground arith in cc) in
      rw (← e, ← v) ((same_text_iff (lookup m key) value).0 (ground arith))
  | inr apart ↦ entries_found m entries (ground arith) j x (ground arith)
]

-- An entry of the rest of a map is an entry of the map.
entry_of_rest :
    (key value : Text) (entries : GoMap Text Text)
    → IsMap ((key, value) ∷ entries)
    → (j x : Text) → lookup entries j ≡ some x
    → lookup ((key, value) ∷ entries) j ≡ some x
unfolding lookup nodup
entry_of_rest key value entries h j x p = elim (Bool-cases (key == j)) [
  | inl same ↦ absurd (ground (arith, lookup-some entries j p, (text_eq.beq_iff key j).0 same))
  | inr apart ↦ ground arith
]

all_entries :
    (m entries : GoMap Text Text)
    → IsMap entries
    → ((j x : Text) → lookup entries j ≡ some x → lookup m j ≡ some x)
    → entries_in m entries ≡ true
unfolding entries_in lookup nodup
all_entries m [] h all = refl
all_entries m ((key, value) ∷ entries) h all =
    let here =
      (same_text_iff (lookup m key) value).1 (all key value (ground (arith, beq_self key))) in
    let rest =
      all_entries m entries (ground arith)
        (λ j x p. all j x (entry_of_rest key value entries h j x p)) in
    ground (arith, here, rest)

-- maps.Equal holds exactly when every key reads the same in both maps.
pub maps_equal_iff :
    (m1 m2 : GoMap Text Text)
    → IsMap m1
    → IsMap m2
    → (maps_equal m1 m2 ≡ true) ↔ ((j : Text) → lookup m1 j ≡ lookup m2 j)
unfolding maps_equal
maps_equal_iff m1 m2 h1 h2 = (
  λ e. same_keys m1 m2 h1 (ground arith) (entries_found m2 m1 (ground arith)),
  λ same.
      ground
        (arith, equal_length m1 m2 h1 h2 same, all_entries m2 m1 h1 (λ j x p. sym (same j) ∙ p)),
)

abbrev pub list_of : Option (List X509UserMapping) → List X509UserMapping
list_of none = []
list_of (some ms) = ms

-- A password that is desired must have been accepted; where none is desired, none was tried.
abbrev pub wanted_verdict : Option Password → Option Bool
wanted_verdict none = none
wanted_verdict (some pw) = some true

password_iff :
    (verdict : Option Bool) (password : Option Password)
    → (password_matches verdict password ≡ true) ↔ (verdict ≡ wanted_verdict password)
password_iff none none = (λ h. refl, λ h. refl)
password_iff (some b) none = (λ h. absurd (ground arith), λ h. absurd (ground arith))
password_iff none (some pw) = (λ h. absurd (ground arith), λ h. absurd (ground arith))
password_iff (some true) (some pw) = (λ h. refl, λ h. refl)
password_iff (some false) (some pw) = (λ h. absurd (ground arith), λ h. absurd (ground arith))

-- What it means that a user is as desired, without the order of slices and maps.
pub record IsCurrent (observed : UserObservation) (desired : UserParameters) : Type 0 where
  pub password : observed.password_up_to_date ≡ wanted_verdict desired.authentication.password
  pub mappings :
      (m : X509UserMapping)
      → contains observed.x509_providers m
        ≡ contains (list_of desired.authentication.x509_providers) m
  pub same_usergroup : observed.usergroup ≡ some desired.usergroup
  pub lifetime_check :
      observed.is_password_lifetime_check_enabled ≡ some desired.is_password_lifetime_check_enabled
  pub same_parameters : (j : Text) → lookup observed.parameters j ≡ lookup desired.parameters j
  pub same_privileges : (p : Text) → contains observed.privileges p ≡ contains desired.privileges p
  pub same_roles : (r : Text) → contains observed.roles r ≡ contains desired.roles r

no_mappings_iff :
    (ms : List X509UserMapping)
    → (no_mappings ms ≡ true) ↔ ((m : X509UserMapping) → contains ms m ≡ false)
unfolding contains
no_mappings_iff [] = (λ h m. refl, λ h. refl)
no_mappings_iff (x ∷ ms) =
    (λ h. absurd (ground arith), λ h. absurd (ground (arith, h x, beq_self x)))

mappings_match_iff :
    (o : MapOrder) (observed : List X509UserMapping) (desired : Option (List X509UserMapping))
    → (mappings_match o observed desired ≡ true)
      ↔ ((m : X509UserMapping) → contains observed m ≡ contains (list_of desired) m)
unfolding contains
mappings_match_iff o observed none = no_mappings_iff observed
mappings_match_iff o observed (some ms) = arrays_equal_iff o observed ms

-- The test says true of an observation exactly when the password has the verdict that is wanted, the
-- user group and the lifetime check are the desired ones, every parameter reads the same, and the
-- mappings, privileges and roles are the desired ones as sets.
pub up_to_date_iff :
    (o : MapOrder) (observed : UserObservation) (desired : UserParameters)
    → IsMap observed.parameters
    → IsMap desired.parameters
    → (up_to_date o observed desired ≡ true) ↔ IsCurrent observed desired
unfolding up_to_date is_x509_mappings_up_to_date is_password_up_to_date
up_to_date_iff o observed desired h1 h2 =
    let pw = password_iff observed.password_up_to_date desired.authentication.password in
    let ms = mappings_match_iff o observed.x509_providers desired.authentication.x509_providers in
    let group = same_text_iff observed.usergroup desired.usergroup in
    let lifetime =
      same_bool_iff observed.is_password_lifetime_check_enabled
        desired.is_password_lifetime_check_enabled in
    let parameters = maps_equal_iff observed.parameters desired.parameters h1 h2 in
    let privileges = arrays_equal_iff o observed.privileges desired.privileges in
    let roles = arrays_equal_iff o observed.roles desired.roles in
    (
      λ h. record {
        password = pw.0 (ground arith);
        mappings = ms.0 (ground arith);
        same_usergroup = group.0 (ground arith);
        lifetime_check = lifetime.0 (ground arith);
        same_parameters = parameters.0 (ground arith);
        same_privileges = privileges.0 (ground arith);
        same_roles = roles.0 (ground arith);
      },
      λ c. ground (
        arith,
        pw.1 c.password,
        ms.1 c.mappings,
        group.1 c.same_usergroup,
        lifetime.1 c.lifetime_check,
        parameters.1 c.same_parameters,
        privileges.1 c.same_privileges,
        roles.1 c.same_roles,
      ),
    )

-- A user for which a mapping by reference to a provider is desired is never reported as up to date,
-- where no observed mapping holds a reference.
pub reference_never_up_to_date :
    (o : MapOrder) (observed : UserObservation) (desired : UserParameters)
    → IsMap observed.parameters
    → IsMap desired.parameters
    → ((m : X509UserMapping) → contains observed.x509_providers m ≡ true → m.provider_ref ≡ none)
    → (m : X509UserMapping) (r : Reference)
    → contains (list_of desired.authentication.x509_providers) m ≡ true
    → m.provider_ref ≡ some r
    → up_to_date o observed desired ≡ false
reference_never_up_to_date o observed desired h1 h2 plain m r wanted has_ref =
    elim (Bool-cases (up_to_date o observed desired)) [
      | inl current ↦
          let c = (up_to_date_iff o observed desired h1 h2).0 current in
          absurd (ground (arith, plain m (c.mappings m ∙ wanted)))
      | inr stale ↦ stale
    ]
