-- ===== src/Controllers/User/Update/Laws.antt =====
-- What Update of a user leaves in the status.
use crossplane_provider_hana.Prelude.{true, some, ◌≡◌, refl, arith, sym, ap, ◌∙◌, inl, inr, ℕ, ◌⊎◌}
use crossplane_provider_hana.Text.{Text, lit, text_eq}
use crossplane_provider_hana.Errors.{Err, Result, ok, err}
use crossplane_provider_hana.Exec.{◌>>◌, bind_ok}
use crossplane_provider_hana.Sql.{Database}
use crossplane_provider_hana.GoMap.{MapOrder}
use crossplane_provider_hana.Utils.{arrays_equal}
use crossplane_provider_hana.Apis.{UserSpec, UserParameters, UserObservation}
use crossplane_provider_hana.Controllers.User.{Kube, UserResource}
use crossplane_provider_hana.Controllers.User.Steps.{
  update_privileges, update_roles, update_parameters, update_x509_providers, update_usergroup,
  update_password_lifetime_check, update_password,
}
use crossplane_provider_hana.Controllers.User.Steps.Outcomes.{
  privileges_outcome, roles_outcome, parameters_outcome, usergroup_outcome, x509_providers_outcome,
  lifetime_check_outcome, password_outcome,
}
use crossplane_provider_hana.Privilege.Queries.Laws.{filter_managed_privileges_lem}
use crossplane_provider_hana.Controllers.User.Inputs.{
  build_desired_parameters, build_observed_parameters,
}
use crossplane_provider_hana.Controllers.User.Update.{update_steps, update, build_update_inputs}

-- The parts of a status that a successful Update brings to the desired ones.
pub record IsSettled (o : MapOrder) (status : UserObservation) (desired : UserParameters)
    : Type 0 where
  pub privileges_settled : arrays_equal o status.privileges desired.privileges ≡ true
  pub roles_settled : arrays_equal o status.roles desired.roles ≡ true
  pub usergroup_settled : status.usergroup ≡ some desired.usergroup
  pub lifetime_check_settled :
      status.is_password_lifetime_check_enabled ≡ some desired.is_password_lifetime_check_enabled

-- A field of statuses that are equal.
module _ {x y : UserObservation} (e : x ≡ y) where
  privileges_of : x.privileges ≡ y.privileges
  privileges_of = ap (λ (s : UserObservation). s.privileges) e

  roles_of : x.roles ≡ y.roles
  roles_of = ap (λ (s : UserObservation). s.roles) e

  usergroup_of : x.usergroup ≡ y.usergroup
  usergroup_of = ap (λ (s : UserObservation). s.usergroup) e

  lifetime_of : x.is_password_lifetime_check_enabled ≡ y.is_password_lifetime_check_enabled
  lifetime_of = ap (λ (s : UserObservation). s.is_password_lifetime_check_enabled) e

-- The first of two steps that succeed, and the second on what it leaves.
first_ok :
    {S : Type 0} (m n : S → Result (Unit {0}) × S) (s : S)
    → ((m >> n) s).0 ≡ ok tt
    → ((m s).0 ≡ ok tt) × ((n (m s).1).0 ≡ ok tt) × ((m >> n) s ≡ n (m s).1)
first_ok m n s h =
    let (_, e, rest) = bind_ok m (λ _. n) s h in (e, ap (λ r. r.0) (sym rest) ∙ h, rest)

module _ (db : Database) (kube : Kube) (o : MapOrder) (fresh : ℕ → ℕ) (username : Text)
    (desired : UserParameters) (observed : UserObservation) (cr : UserResource)
    (same_privileges : observed.privileges ≡ cr.status.privileges)
    (same_roles : observed.roles ≡ cr.status.roles)
    (same_usergroup : observed.usergroup ≡ cr.status.usergroup)
    (same_lifetime_check : observed.is_password_lifetime_check_enabled
      ≡ cr.status.is_password_lifetime_check_enabled) where
  steps_settle :
      (update_steps db kube o fresh username desired observed cr).0 ≡ ok tt
      → IsSettled o (update_steps db kube o fresh username desired observed cr).1.status desired
  unfolding update_steps
  steps_settle h =
      let m1 = update_privileges db o username desired observed in
      let m2 = update_roles db o desired observed in
      let m3 = update_parameters db o desired observed in
      let m4 = update_usergroup db desired observed in
      let m5 = update_x509_providers db o kube desired observed in
      let m6 = update_password_lifetime_check db desired observed in
      let m7 = update_password db kube desired in
      let (e1, h1, s1) = first_ok m1 (m2 >> (m3 >> (m4 >> (m5 >> (m6 >> m7))))) cr h in
      let cr1 = (m1 cr).1 in
      let (e2, h2, s2) = first_ok m2 (m3 >> (m4 >> (m5 >> (m6 >> m7)))) cr1 h1 in
      let cr2 = (m2 cr1).1 in
      let (e3, h3, s3) = first_ok m3 (m4 >> (m5 >> (m6 >> m7))) cr2 h2 in
      let cr3 = (m3 cr2).1 in
      let (e4, h4, s4) = first_ok m4 (m5 >> (m6 >> m7)) cr3 h3 in
      let cr4 = (m4 cr3).1 in
      let (e5, h5, s5) = first_ok m5 (m6 >> m7) cr4 h4 in
      let cr5 = (m5 cr4).1 in
      let (e6, e7, s6) = first_ok m6 m7 cr5 h5 in
      let cr6 = (m6 cr5).1 in
      let (x1, t1, p1) = privileges_outcome db kube o username desired observed cr e1 in
      let (x2, t2, p2) = roles_outcome db kube o username desired observed cr1 e2 in
      let (x3, t3) = parameters_outcome db kube o username desired observed cr2 e3 in
      let (x4, t4, p4) = usergroup_outcome db kube o username desired observed cr3 e4 in
      let (x5, t5) = x509_providers_outcome db kube o username desired observed cr4 e5 in
      let (x6, t6, p6) = lifetime_check_outcome db kube o username desired observed cr5 e6 in
      let (x7, t7) = password_outcome db kube o username desired observed cr6 e7 in
      let last =
        ap (λ (r : Result (Unit {0}) × UserResource). r.1.status)
          (s1 ∙ (s2 ∙ (s3 ∙ (s4 ∙ (s5 ∙ s6)))))
        ∙ t7 in
      record {
        privileges_settled =
            rw
              (privileges_of last
                ∙ (privileges_of t6
                    ∙ (privileges_of t5
                        ∙ (privileges_of t4
                            ∙ (privileges_of t3 ∙ (privileges_of t2 ∙ privileges_of t1))))))
              (p1 same_privileges);
        roles_settled =
            rw
              (roles_of last
                ∙ (roles_of t6 ∙ (roles_of t5 ∙ (roles_of t4 ∙ (roles_of t3 ∙ roles_of t2)))))
              (p2 (same_roles ∙ sym (roles_of t1)));
        usergroup_settled =
            usergroup_of last
            ∙ (usergroup_of t6
                ∙ (usergroup_of t5
                    ∙ (usergroup_of t4
                        ∙ p4 (
                            same_usergroup
                            ∙ sym (usergroup_of t3 ∙ (usergroup_of t2 ∙ usergroup_of t1))))));
        lifetime_check_settled =
            lifetime_of last
            ∙ (lifetime_of t6
                ∙ p6 (
                    same_lifetime_check
                    ∙ sym (
                        lifetime_of t5
                        ∙ (lifetime_of t4
                            ∙ (lifetime_of t3 ∙ (lifetime_of t2 ∙ lifetime_of t1))))));
      }

ok_or_err : {A : Type 0} (r : Result A) → ((a : A) × (r ≡ ok a)) ⊎ ((e : Err) × (r ≡ err e))
ok_or_err (ok a) = inl (a, refl)
ok_or_err (err e) = inr (e, refl)

abbrev strict_observed : MapOrder → (ℕ → ℕ) → UserObservation → UserObservation
strict_observed o fresh status = record (build_observed_parameters o fresh status) {
  privileges = status.privileges;
}

module _ (db : Database) (kube : Kube) (o : MapOrder) (fresh : ℕ → ℕ) (username : Text)
    (spec : UserSpec) (status : UserObservation)
    (strict : spec.privilege_management_policy ≡ lit "strict") where
  -- Under the strict policy the inputs of the steps fail only with the desired parameters.
  strict_inputs :
      (desired : UserParameters)
      → build_desired_parameters o fresh username spec ≡ ok desired
      → build_update_inputs db kube o fresh username spec status
        ≡ ok (desired, strict_observed o fresh status)
  unfolding build_update_inputs
  strict_inputs desired d =
      rw
        (
          d,
          strict,
          (filter_managed_privileges_lem status.privileges spec.for_provider.privileges
              status.privileges username).0,
        )
        refl

  failed_inputs :
      (e : Err)
      → build_desired_parameters o fresh username spec ≡ err e
      → build_update_inputs db kube o fresh username spec status ≡ err e
  unfolding build_update_inputs
  failed_inputs e d = rw d refl

module _ (db : Database) (kube : Kube) (o : MapOrder) (fresh : ℕ → ℕ) (username : Text)
    (cr : UserResource) where
  -- Update runs the steps on its inputs.
  update_on_inputs :
      (desired : UserParameters) (observed : UserObservation)
      → build_update_inputs db kube o fresh username cr.spec cr.status ≡ ok (desired, observed)
      → update db kube o fresh username cr
        ≡ update_steps db kube o fresh username desired observed cr
  unfolding update
  update_on_inputs desired observed inputs = rw inputs refl

  -- Under the strict policy, an Update of a user that succeeds has computed the desired parameters,
  -- and leaves a status whose privileges and roles are the desired ones as sets, and whose user
  -- group and lifetime check are the desired ones.
  pub user_update_settles :
      cr.spec.privilege_management_policy ≡ lit "strict"
      → (update db kube o fresh username cr).0 ≡ ok tt
      → (desired : UserParameters) × (build_desired_parameters o fresh username cr.spec
          ≡ ok desired)
        × IsSettled o (update db kube o fresh username cr).1.status desired
  unfolding update build_observed_parameters
  user_update_settles strict h =
      elim (ok_or_err (build_desired_parameters o fresh username cr.spec)) [
        | inr (e, d) ↦
            absurd
              (ground (arith, failed_inputs db kube o fresh username cr.spec cr.status strict e d))
        | inl (desired, d) ↦
            let run =
              update_on_inputs desired (strict_observed o fresh cr.status)
                (strict_inputs db kube o fresh username cr.spec cr.status strict desired d) in
            let settled =
              steps_settle db kube o fresh username desired (strict_observed o fresh cr.status) cr
                refl refl refl refl
                (ap (λ (r : Result (Unit {0}) × UserResource). r.0) (sym run) ∙ h) in
            (desired, d, rw run settled)
      ]
