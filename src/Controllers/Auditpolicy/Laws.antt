-- ===== src/Controllers/Auditpolicy/Laws.antt =====
-- What the handlers of an audit policy do to its status and to the database.
use crossplane_provider_hana.Prelude.{
  Bool, true, false, Option, none, some, List, ◌==◌, ◌≡◌, refl, sym, ap, arith, ◌∙◌, ◌⊎◌, inl, inr,
  beq_self,
}
use crossplane_provider_hana.Text.{Text, text_eq}
use crossplane_provider_hana.Numbers.{ℤ, ℤ_eq}
use crossplane_provider_hana.Errors.{Result, ok}
use crossplane_provider_hana.Exec.{bind_ok, ◌>>=◌}
use crossplane_provider_hana.Sql.{Database}
use crossplane_provider_hana.GoMap.{MapOrder}
use crossplane_provider_hana.Utils.{arrays_equal}
use crossplane_provider_hana.Utils.Arrays.{arrays_equal_iff}
use crossplane_provider_hana.Apis.{AuditPolicyParameters, AuditPolicyObservation}
use crossplane_provider_hana.Controllers.Auditpolicy.{
  AuditPolicyResource, build_desired_parameters, needs_recreation, same_int, same_bool, up_to_date,
  sync_retention, sync_enabled, update, observe,
}

same_int_self : (x : ℤ) → same_int (some x) (some x) ≡ ok true
unfolding same_int
same_int_self x = ap ok (beq_self x)

-- Comparisons of what is known to compare.
same_int_of : (p q : Option ℤ) (b : Bool) → same_int p q ≡ ok b → same_int q q ≡ ok true
unfolding same_int
same_int_of none q b h = cc
same_int_of (some x) none b h = cc
same_int_of (some x) (some y) b h = same_int_self y

same_bool_of : (p q : Option Bool) (b : Bool) → same_bool p q ≡ ok b → same_bool q q ≡ ok true
unfolding same_bool
same_bool_of none q b h = cc
same_bool_of (some x) none b h = cc
same_bool_of (some x) (some true) b h = refl
same_bool_of (some x) (some false) b h = refl

-- A resource whose status has the retention and the switch of another.
abbrev with_settings : AuditPolicyParameters → AuditPolicyResource → AuditPolicyResource
with_settings desired cr = record cr {
  status = record cr.status {
    audit_trail_retention = desired.audit_trail_retention;
    enabled = desired.enabled;
  };
}

module _ (db : Database) (observed : AuditPolicyObservation) (desired : AuditPolicyParameters)
    (cr : AuditPolicyResource) where
  -- A step does nothing, or records both settings.
  retention_synced :
      (sync_retention db observed desired cr).0 ≡ ok tt
      → ((same_int observed.audit_trail_retention desired.audit_trail_retention ≡ ok true)
          × ((sync_retention db observed desired cr).1 ≡ cr))
        ⊎ ((same_int desired.audit_trail_retention desired.audit_trail_retention ≡ ok true)
            × ((sync_retention db observed desired cr).1
                ≡ with_settings desired
                    (record cr { history = (sync_retention db observed desired cr).1.history })))
  unfolding sync_retention
  retention_synced h =
      ground (arith, same_int_of observed.audit_trail_retention desired.audit_trail_retention false)

  enabled_synced :
      (sync_enabled db observed desired cr).0 ≡ ok tt
      → ((same_bool observed.enabled desired.enabled ≡ ok true)
          × ((sync_enabled db observed desired cr).1 ≡ cr))
        ⊎ ((same_bool desired.enabled desired.enabled ≡ ok true)
            × ((sync_enabled db observed desired cr).1
                ≡ with_settings desired
                    (record cr { history = (sync_enabled db observed desired cr).1.history })))
  unfolding sync_enabled
  enabled_synced h = ground (arith, same_bool_of observed.enabled desired.enabled false)

pub arrays_equal_self : (o : MapOrder) (xs : List Text) → arrays_equal o xs xs ≡ true
arrays_equal_self o xs = (arrays_equal_iff o xs xs).1 (λ a. refl)

arrays_equal_swap :
    (o : MapOrder) (xs ys : List Text) → arrays_equal o xs ys ≡ true → arrays_equal o ys xs ≡ true
arrays_equal_swap o xs ys h =
    (arrays_equal_iff o ys xs).1 (λ a. sym ((arrays_equal_iff o xs ys).0 h a))

module _ (db : Database) (o : MapOrder) (cr : AuditPolicyResource) where
  settings_synced :
      let desired = build_desired_parameters cr in
      needs_recreation o cr.status desired ≡ false
      → (update db o cr).0 ≡ ok tt
      → let cr' = (update db o cr).1 in
        (same_int cr'.status.audit_trail_retention desired.audit_trail_retention ≡ ok true)
        × (same_bool cr'.status.enabled desired.enabled ≡ ok true)
        × (cr'.spec ≡ cr.spec)
        × (cr'.status.policy_name ≡ cr.status.policy_name)
        × (cr'.status.audit_actions ≡ cr.status.audit_actions)
        × (cr'.status.audit_status ≡ cr.status.audit_status)
        × (cr'.status.audit_level ≡ cr.status.audit_level)
  unfolding update
  settings_synced n h =
      let desired = build_desired_parameters cr in
      let m1 = sync_retention db cr.status desired in
      let m2 = sync_enabled db cr.status desired in
      let step : update db o cr ≡ (m1 >>= λ _. m2) cr = rw n refl in
      let (_, e1, s1) =
        bind_ok m1 (λ _. m2) cr
          (ap (λ (r : Result (Unit {0}) × AuditPolicyResource). r.0) (sym step) ∙ h) in
      let e2 : (m2 (m1 cr).1).0 ≡ ok tt =
        ap (λ (r : Result (Unit {0}) × AuditPolicyResource). r.0) (sym (step ∙ s1)) ∙ h in
      rw (step ∙ s1) (elim (retention_synced db cr.status desired cr e1) [
        | inl (i, k) ↦ elim (enabled_synced db cr.status desired (m1 cr).1 e2) [
          | inl (j, l) ↦ rw l (rw k (i, j, refl, refl, refl, refl, refl))
          | inr (j, l) ↦ rw l (
              rw k (
                same_int_of cr.status.audit_trail_retention desired.audit_trail_retention true i,
                j,
                refl,
                refl,
                refl,
                refl,
                refl,
              ))
        ]
        | inr (i, k) ↦ elim (enabled_synced db cr.status desired (m1 cr).1 e2) [
          | inl (j, l) ↦ rw l (
              rw k (
                i,
                same_bool_of cr.status.enabled desired.enabled true j,
                refl,
                refl,
                refl,
                refl,
                refl,
              ))
          | inr (j, l) ↦ rw l (rw k (i, j, refl, refl, refl, refl, refl))
        ]
      ])

  -- Where the status has the name of the specification in upper case, an Update that need not recreate
  -- the policy and succeeds leaves a status that is up to date with the specification, which is
  -- unchanged.
  pub auditpolicy_update_converges :
      let desired = build_desired_parameters cr in
      needs_recreation o cr.status desired ≡ false
      → cr.status.policy_name ≡ desired.policy_name
      → (update db o cr).0 ≡ ok tt
      → let cr' = (update db o cr).1 in
        (up_to_date o cr'.status desired ≡ ok true) × (cr'.spec ≡ cr.spec)
  unfolding up_to_date needs_recreation
  auditpolicy_update_converges n p h =
      let desired = build_desired_parameters cr in
      let (i, j, s, q, a, t, l) = settings_synced n h in
      let named : (cr.status.policy_name == desired.policy_name) ≡ true =
        (text_eq.beq_iff _ _).1 p in
      let same = arrays_equal_swap o desired.audit_actions cr.status.audit_actions in
      (rw (i, j, q, a, t, l) (ground (arith, named, same)), s)

module _ (db : Database) (o : MapOrder) (cr : AuditPolicyResource) where
  -- Observe leaves the specification, and reports the test of the status that it stores.
  auditpolicy_observed_status :
      {b : Bool}
      → (observe db o cr).0 ≡ ok (record { resource_exists = true; resource_up_to_date = b })
      → let cr' = (observe db o cr).1 in
        (up_to_date o cr'.status (build_desired_parameters cr') ≡ ok b) × (cr'.spec ≡ cr.spec)
  unfolding observe
  auditpolicy_observed_status h = ground arith

  -- An Update of an audit policy whose status is up to date succeeds, sends nothing and changes
  -- nothing.
  auditpolicy_update_noop :
      up_to_date o cr.status (build_desired_parameters cr) ≡ ok true → update db o cr ≡ (ok tt, cr)
  unfolding update up_to_date needs_recreation sync_retention sync_enabled
  auditpolicy_update_noop h = ground (
    arith,
    arrays_equal_swap o cr.status.audit_actions (build_desired_parameters cr).audit_actions,
  )

-- After an Observe that reports the audit policy as there and up to date, an Update of the same
-- resource succeeds, sends nothing and changes nothing.
auditpolicy_observe-update :
    (db : Database) (o : MapOrder) (cr : AuditPolicyResource)
    → (observe db o cr).0 ≡ ok (record { resource_exists = true; resource_up_to_date = true })
    → update db o (observe db o cr).1 ≡ (ok tt, (observe db o cr).1)
auditpolicy_observe-update db o cr h =
    auditpolicy_update_noop db o (observe db o cr).1 (auditpolicy_observed_status db o cr h).0
