-- ===== src/Controllers/User/Steps/Outcomes.antt =====
-- What a step of Update that succeeds writes to the status.
use crossplane_provider_hana.Prelude.{
  Bool, true, false, List, Option, some, none, ◌≡◌, refl, arith, sym, ap, ◌∙◌, Bool-cases, inl, inr,
}
use crossplane_provider_hana.Text.{Text, text_eq}
use crossplane_provider_hana.Errors.{ok}
use crossplane_provider_hana.Sql.{Database}
use crossplane_provider_hana.GoMap.{GoMap, MapOrder}
use crossplane_provider_hana.Utils.{arrays_both_diff, arrays_equal, maps_both_diff}
use crossplane_provider_hana.Utils.Arrays.{arrays_equal_iff, both_diff-equal}
use crossplane_provider_hana.Apis.{UserParameters, UserObservation, X509UserMapping, mapping_eq}
use crossplane_provider_hana.Controllers.User.{Kube, UserResource}
use crossplane_provider_hana.Controllers.User.Steps.{
  update_privileges, update_roles, update_parameters, update_x509_providers, update_usergroup,
  update_password_lifetime_check, update_password, toggle_password, is_text, is_bool, mappings_of,
}

is_text-true : (x : Option Text) (s : Text) → is_text x s ≡ true → x ≡ some s
is_text-true none s h = ground arith
is_text-true (some t) s h = ap some ((text_eq.beq_iff t s).0 h)

is_bool-true : (x : Option Bool) (b : Bool) → is_bool x b ≡ true → x ≡ some b
is_bool-true none b h = ground arith
is_bool-true (some true) true h = refl
is_bool-true (some true) false h = ground arith
is_bool-true (some false) true h = ground arith
is_bool-true (some false) false h = refl

module _ (db : Database) (kube : Kube) (o : MapOrder) (username : Text) (desired : UserParameters)
    (observed : UserObservation) (cr : UserResource) where
  equal_self : (xs : List Text) → arrays_equal o xs xs ≡ true
  equal_self xs = (arrays_equal_iff o xs xs).1 (λ a. refl)

  equal_sym : (xs ys : List Text) → arrays_equal o xs ys ≡ true → arrays_equal o ys xs ≡ true
  equal_sym xs ys h = (arrays_equal_iff o ys xs).1 (λ a. sym ((arrays_equal_iff o xs ys).0 h a))

  pub privileges_outcome :
      (update_privileges db o username desired observed cr).0 ≡ ok tt
      → (x : List Text) × ((update_privileges db o username desired observed cr).1.status
          ≡ record (cr.status) { privileges = x })
        × (observed.privileges ≡ cr.status.privileges → arrays_equal o x desired.privileges ≡ true)
  unfolding update_privileges
  privileges_outcome h =
      elim (Bool-cases (arrays_both_diff o desired.privileges observed.privileges).0) [
        | inl same ↦ (
          cr.status.privileges,
          rw same refl,
          λ e.
              ap (λ (p : List Text). arrays_equal o p desired.privileges) (sym e)
              ∙ equal_sym desired.privileges observed.privileges
                  (sym (both_diff-equal o desired.privileges observed.privileges) ∙ same),
        )
        | inr apart ↦ (desired.privileges, ground arith, λ e. equal_self desired.privileges)
      ]

  pub roles_outcome :
      (update_roles db o desired observed cr).0 ≡ ok tt
      → (x : List Text) × ((update_roles db o desired observed cr).1.status
          ≡ record (cr.status) { roles = x })
        × (observed.roles ≡ cr.status.roles → arrays_equal o x desired.roles ≡ true)
  unfolding update_roles
  roles_outcome h = elim (Bool-cases (arrays_both_diff o desired.roles observed.roles).0) [
    | inl same ↦ (
      cr.status.roles,
      rw same refl,
      λ e.
          ap (λ (p : List Text). arrays_equal o p desired.roles) (sym e)
          ∙ equal_sym desired.roles observed.roles
              (sym (both_diff-equal o desired.roles observed.roles) ∙ same),
    )
    | inr apart ↦ (desired.roles, ground arith, λ e. equal_self desired.roles)
  ]

  pub parameters_outcome :
      (update_parameters db o desired observed cr).0 ≡ ok tt
      → (x : GoMap Text Text) × ((update_parameters db o desired observed cr).1.status
          ≡ record (cr.status) { parameters = x })
  unfolding update_parameters
  parameters_outcome h =
      elim (Bool-cases (maps_both_diff o desired.parameters observed.parameters).0) [
        | inl same ↦ (cr.status.parameters, rw same refl)
        | inr apart ↦ (desired.parameters, ground arith)
      ]

  pub usergroup_outcome :
      (update_usergroup db desired observed cr).0 ≡ ok tt
      → (x : Option Text) × ((update_usergroup db desired observed cr).1.status
          ≡ record (cr.status) { usergroup = x })
        × (observed.usergroup ≡ cr.status.usergroup → x ≡ some desired.usergroup)
  unfolding update_usergroup
  usergroup_outcome h = elim (Bool-cases (is_text observed.usergroup desired.usergroup)) [
    | inl same ↦ (
      cr.status.usergroup,
      rw same refl,
      λ e. sym e ∙ is_text-true observed.usergroup desired.usergroup same,
    )
    | inr apart ↦ (some desired.usergroup, ground arith, λ e. refl)
  ]

  pub x509_providers_outcome :
      (update_x509_providers db o kube desired observed cr).0 ≡ ok tt
      → (x : List X509UserMapping) × ((update_x509_providers db o kube desired observed cr).1.status
          ≡ record (cr.status) { x509_providers = x })
  unfolding update_x509_providers
  x509_providers_outcome h =
      elim (Bool-cases (arrays_both_diff o (mappings_of desired) observed.x509_providers).0) [
        | inl same ↦ (cr.status.x509_providers, ground arith)
        | inr apart ↦ (mappings_of desired, ground arith)
      ]

  pub lifetime_check_outcome :
      (update_password_lifetime_check db desired observed cr).0 ≡ ok tt
      → (x : Option Bool) × ((update_password_lifetime_check db desired observed cr).1.status
          ≡ record (cr.status) { is_password_lifetime_check_enabled = x })
        × (observed.is_password_lifetime_check_enabled
              ≡ cr.status.is_password_lifetime_check_enabled
            → x ≡ some desired.is_password_lifetime_check_enabled)
  unfolding update_password_lifetime_check
  lifetime_check_outcome h =
      elim (Bool-cases (
        is_bool observed.is_password_lifetime_check_enabled
          desired.is_password_lifetime_check_enabled)) [
            | inl same ↦ (
              cr.status.is_password_lifetime_check_enabled,
              rw same refl,
              λ e.
                  sym e
                  ∙ is_bool-true observed.is_password_lifetime_check_enabled
                      desired.is_password_lifetime_check_enabled same,
            )
            | inr apart ↦ (some desired.is_password_lifetime_check_enabled, ground arith, λ e. refl)
          ]

  pub password_outcome :
      (update_password db kube desired cr).0 ≡ ok tt
      → (x : Option Bool) × ((update_password db kube desired cr).1.status
          ≡ record (cr.status) { password_up_to_date = x })
  unfolding update_password toggle_password
  password_outcome h =
      ((update_password db kube desired cr).1.status.password_up_to_date, ground arith)
