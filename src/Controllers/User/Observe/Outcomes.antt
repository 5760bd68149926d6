-- ===== src/Controllers/User/Observe/Outcomes.antt =====
-- What Observe of a user reports, and what it records.
use crossplane_provider_hana.Prelude.{
  ℕ, Bool, true, false, Option, some, List, ◌≡◌, refl, sym, ap, arith, ◌∙◌, ◌↔◌, Bool-cases, inl,
  inr,
}
use crossplane_provider_hana.Text.{Text, lit, text_eq}
use crossplane_provider_hana.Errors.{Err, Result, Result-cases, ok, err, wrap}
use crossplane_provider_hana.Sql.{Database}
use crossplane_provider_hana.GoMap.{MapOrder, IsMap}
use crossplane_provider_hana.Apis.{UserParameters, UserObservation}
use crossplane_provider_hana.Privilege.Queries.{filter_managed_privileges}
use crossplane_provider_hana.Clients.User.Read.{read}
use crossplane_provider_hana.Clients.User.Read.Laws.{read-HasMap}
use crossplane_provider_hana.Controllers.{ExternalObservation}
use crossplane_provider_hana.Controllers.User.{Kube, UserResource}
use crossplane_provider_hana.Controllers.User.Inputs.{handle_defaults, convert, get_password}
use crossplane_provider_hana.Controllers.User.Observe.{
  observe, observe_existing, same_text, up_to_date, handle_auth_error, condition,
}
use crossplane_provider_hana.Controllers.User.Observe.Laws.{
  IsCurrent, up_to_date_iff, same_text_iff,
}

-- The report of Observe: the user is not there where its name is not the desired one, and nothing is
-- recorded. Else what was read is recorded, with the managed ones of its privileges, and the user is
-- up to date exactly when what is recorded is as desired.
pub data IsObserved (default_schema : Text) (parameters : UserParameters)
    (observed : UserObservation) (cr cr' : UserResource) : ExternalObservation → Type 0 where
  absent :
      ¬ (observed.username ≡ some parameters.username)
      → cr'.status ≡ cr.status
      → IsObserved default_schema parameters observed cr cr'
          (record { resource_exists = false; resource_up_to_date = false })
  present :
      (privileges : List Text) (b : Bool)
      → observed.username ≡ some parameters.username
      → filter_managed_privileges observed.privileges parameters.privileges cr.status.privileges
          cr.spec.privilege_management_policy default_schema
        ≡ ok privileges
      → cr'.status ≡ record observed { privileges = privileges }
      → (b ≡ true) ↔ IsCurrent cr'.status parameters
      → IsObserved default_schema parameters observed cr cr'
          (record { resource_exists = true; resource_up_to_date = b })

-- The desired parameters of a resource have its map of parameters.
desired_map :
    (fresh : ℕ → ℕ) (default_schema : Text) (cr : UserResource) {parameters : UserParameters}
    → convert default_schema (handle_defaults fresh cr.spec) ≡ ok parameters
    → parameters.parameters ≡ cr.spec.for_provider.parameters
unfolding convert handle_defaults crossplane_provider_hana.Controllers.User.Inputs.copy_parameters
desired_map fresh default_schema cr h = ground arith

abbrev answer : Result ExternalObservation × UserResource → Result ExternalObservation
answer r = r.0

abbrev recorded : Result ExternalObservation × UserResource → UserObservation
recorded r = r.1.status

ok_injective : {A : Type 0} {a b : A} → ok a ≡ ok b → a ≡ b
ok_injective h = cc

module _ (db : Database) (kube : Kube) (o : MapOrder) (fresh : ℕ → ℕ) (default_schema : Text)
    (cr : UserResource) where
  abbrev run : Result ExternalObservation × UserResource
  run = observe db kube o fresh default_schema cr

  -- Where the inputs are there and no failure but one of authentication was met.
  module _ (parameters : UserParameters) (password : Text) {kept : Option Err}
      (c : convert default_schema (handle_defaults fresh cr.spec) ≡ ok parameters)
      (g : get_password kube cr.spec ≡ ok password)
      (k : handle_auth_error ((read db parameters password cr.history).0).1 ≡ ok kept) where
    abbrev found : UserObservation
    found = ((read db parameters password cr.history).0).0

    abbrev after_read : UserResource
    after_read = record cr { history = (read db parameters password cr.history).1 }

    run_absent :
        same_text found.username parameters.username ≡ false
        → run ≡ (ok (record { resource_exists = false; resource_up_to_date = false }), after_read)
    unfolding observe read
    run_absent t = rw (c, g, k, t) refl

    run_present :
        same_text found.username parameters.username ≡ true
        → run ≡ observe_existing db kube o fresh default_schema parameters found kept after_read
    unfolding observe read crossplane_provider_hana.Prelude.list_eq
    run_present t = rw (c, g, k, t) refl

    existing_filtered :
        {privileges : List Text}
        → filter_managed_privileges found.privileges parameters.privileges cr.status.privileges
            cr.spec.privilege_management_policy default_schema
          ≡ ok privileges
        → let managed = record found { privileges = privileges } in
          observe_existing db kube o fresh default_schema parameters found kept after_read ≡ (
            ok (record {
              resource_exists = true;
              resource_up_to_date = up_to_date o managed parameters;
            }),
            record after_read { status = managed; ready = some (condition kept) },
          )
    unfolding observe_existing
    existing_filtered f = rw f refl

    existing_unfiltered :
        {e : Err}
        → filter_managed_privileges found.privileges parameters.privileges cr.status.privileges
            cr.spec.privilege_management_policy default_schema
          ≡ err e
        → (observe_existing db kube o fresh default_schema parameters found kept after_read).0
          ≡ err (wrap (lit "cannot filter privileges: ") e)
    unfolding observe_existing
    existing_unfiltered f = rw f refl

    run_IsObserved :
        {x : ExternalObservation}
        → IsMap cr.spec.for_provider.parameters
        → run.0 ≡ ok x
        → IsObserved default_schema parameters found cr run.1 x
    run_IsObserved {x} i h = elim (Bool-cases (same_text found.username parameters.username)) [
      | inr t ↦
          let step = run_absent t in
          let reported = ok_injective (sym (ap answer step) ∙ h) in
          rw (← reported) (
            IsObserved.absent
              (λ e. ground (arith, t, (same_text_iff found.username parameters.username).1 e))
              (ap recorded step))
      | inl t ↦
          elim (Result-cases (
            filter_managed_privileges found.privileges parameters.privileges cr.status.privileges
              cr.spec.privilege_management_policy default_schema)) [
                | inr (e, f) ↦
                    absurd
                      (ground (arith, sym (ap answer (run_present t)) ∙ h, existing_unfiltered f))
                | inl (privileges, f) ↦
                    let step = run_present t ∙ existing_filtered f in
                    let reported = ok_injective (sym (ap answer step) ∙ h) in
                    rw (← reported) (
                      IsObserved.present privileges _
                        ((same_text_iff found.username parameters.username).0 t) f
                        (ap recorded step)
                        (rw (ap recorded step) (
                          up_to_date_iff o (record found { privileges = privileges }) parameters
                            (read-HasMap db parameters password cr.history)
                            (rw (desired_map fresh default_schema cr c) i))))
              ]
    ]

-- An Observe of a user that succeeds has put the specification into its canonical form, and has got
-- the password that it refers to. From what Read then returns, it reports the user as there exactly
-- where the name read is the desired one. It then records what was read, with the managed ones of the
-- privileges, and reports the user as up to date exactly when the recorded status is as desired: the
-- verdict on the password, the user group, the lifetime check, every parameter, and, as sets, the
-- mappings, privileges and roles. Where the user is not there, the status is kept.
pub user_observe-IsObserved :
    (db : Database) (kube : Kube) (o : MapOrder) (fresh : ℕ → ℕ) (default_schema : Text)
    (cr : UserResource) {x : ExternalObservation}
    → IsMap cr.spec.for_provider.parameters
    → (observe db kube o fresh default_schema cr).0 ≡ ok x
    → (parameters : UserParameters) × (password : Text) × (convert default_schema
          (handle_defaults fresh cr.spec)
        ≡ ok parameters)
      × (get_password kube cr.spec ≡ ok password)
      × IsObserved default_schema parameters
          ((read db parameters password cr.history).0).0
          cr
          (observe db kube o fresh default_schema cr).1
          x
unfolding observe
user_observe-IsObserved db kube o fresh default_schema cr i h =
    elim (Result-cases (convert default_schema (handle_defaults fresh cr.spec))) [
      | inr (e, c) ↦ absurd (ground (arith, c))
      | inl (parameters, c) ↦ elim (Result-cases (get_password kube cr.spec)) [
        | inr (e, g) ↦ absurd (ground (arith, c, g))
        | inl (password, g) ↦
            elim (Result-cases (handle_auth_error ((read db parameters password cr.history).0).1)) [
              | inr (e, k) ↦ absurd (ground (arith, c, g, k))
              | inl (kept, k) ↦ (
                parameters,
                password,
                c,
                g,
                run_IsObserved db kube o fresh default_schema cr parameters password c g k i h,
              )
            ]
      ]
    ]
