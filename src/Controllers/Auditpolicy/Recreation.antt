-- ===== src/Controllers/Auditpolicy/Recreation.antt =====
-- Update of an audit policy that drops the policy and creates it again.
use crossplane_provider_hana.Prelude.{
  Bool, true, false, Option, none, some, List, [], ◌∷◌, ◌++◌, if◌then◌else◌, ◌≡◌, refl, sym, ap,
  arith, ◌∙◌, beq_self, append-nil, append_assoc,
}
use crossplane_provider_hana.Text.{Text, lit, text_eq}
use crossplane_provider_hana.Numbers.{ℤ_eq}
use crossplane_provider_hana.Errors.{Result, ok, deref, bind}
use crossplane_provider_hana.Exec.{bind_ok, bind_step, lift, when, ◌>>=◌}
use crossplane_provider_hana.Sql.{Sql, Database, Stmt, plain, exec}
use crossplane_provider_hana.GoMap.{MapOrder}
use crossplane_provider_hana.Utils.{escape_double_quotes}
use crossplane_provider_hana.Apis.{AuditPolicyParameters, AuditPolicyObservation}
use crossplane_provider_hana.Clients.Auditpolicy as Client
use crossplane_provider_hana.Controllers.Auditpolicy.Laws.{arrays_equal_self}
use crossplane_provider_hana.Controllers.Auditpolicy.{
  AuditPolicyResource, build_desired_parameters, needs_recreation, recreate, update,
}

abbrev Outcome : Type 0
Outcome = Result (Unit {0}) × List Stmt

-- The statement that enables the policy, where the specification wants it.
abbrev enabling : AuditPolicyParameters → Option Bool → List Stmt
enabling desired none = []
enabling desired (some false) = []
enabling desired (some true) =
    plain (
      lit "ALTER AUDIT POLICY \""
      ++ escape_double_quotes desired.policy_name
      ++ lit "\" "
      ++ lit "ENABLE")
    ∷ []

module _ (db : Database) (desired : AuditPolicyParameters) (create_query : Text) where
  enable_by :
      (e : Option Bool) (h : List Stmt)
      → let m = when (Client.is_set e) (
          lift (
            bind (deref e) λ b. ok (
              lit "ALTER AUDIT POLICY \""
              ++ escape_double_quotes desired.policy_name
              ++ lit "\" "
              ++ (if b then lit "ENABLE" else lit "DISABLE")))
          >>= exec db) in
        (m h).0 ≡ ok tt → (m h).1 ≡ h ++ enabling desired e
  unfolding exec
  enable_by none h p = sym (append-nil h)
  enable_by (some false) h p = sym (append-nil h)
  enable_by (some true) h p = refl

  enable_statements :
      (h : List Stmt)
      → let m =
          when
            (Client.is_set desired.enabled)
            (lift (Client.prepare_enable_disable_policy_sql desired) >>= exec db) in
        (m h).0 ≡ ok tt → (m h).1 ≡ h ++ enabling desired desired.enabled
  unfolding Client.prepare_enable_disable_policy_sql
  enable_statements h p = enable_by desired.enabled h p

  create_statements :
      (h : List Stmt)
      → Client.prepare_create_sql desired ≡ ok create_query
      → (Client.create db desired h).0 ≡ ok tt
      → (Client.create db desired h).1 ≡ h ++ plain create_query ∷ enabling desired desired.enabled
  unfolding Client.create exec
  create_statements h c p =
      let rest : Unit {0} → Sql (Unit {0}) = λ _.
        when (Client.is_set desired.enabled)
          (lift (Client.prepare_enable_disable_policy_sql desired) >>= exec db) in
      let s1 = bind_step (lift (Client.prepare_create_sql desired)) (λ q. exec db q >>= rest) h c in
      let (_, e, s2) =
        bind_ok (exec db create_query) rest h (ap (λ (r : Outcome). r.0) (sym s1) ∙ p) in
      ap (λ (r : Outcome). r.1) (s1 ∙ s2)
      ∙ (enable_statements (h ++ plain create_query ∷ [])
            (ap (λ (r : Outcome). r.0) (sym (s1 ∙ s2)) ∙ p)
          ∙ append_assoc h (plain create_query ∷ []) (enabling desired desired.enabled))

  recreate_statements :
      (h : List Stmt)
      → Client.prepare_create_sql desired ≡ ok create_query
      → (Client.recreate_policy db desired h).0 ≡ ok tt
      → (Client.recreate_policy db desired h).1
        ≡ h
          ++ plain (Client.prepare_delete_sql desired)
            ∷ plain create_query
            ∷ enabling desired desired.enabled
  unfolding Client.recreate_policy Client.delete exec
  recreate_statements h c p =
      let dropped = plain (Client.prepare_delete_sql desired) ∷ [] in
      let (_, e, s) = bind_ok (Client.delete db desired) (λ _. Client.create db desired) h p in
      ap (λ (r : Outcome). r.1) s
      ∙ (create_statements (h ++ dropped) c (ap (λ (r : Outcome). r.0) (sym s) ∙ p)
          ∙ append_assoc h dropped (plain create_query ∷ enabling desired desired.enabled))

not_needed :
    (o : MapOrder) (observed : AuditPolicyObservation) (desired : AuditPolicyParameters)
    → observed.audit_actions ≡ desired.audit_actions
    → observed.audit_status ≡ desired.audit_status
    → observed.audit_level ≡ desired.audit_level
    → needs_recreation o observed desired ≡ false
unfolding needs_recreation
not_needed o observed desired a s l =
    rw
      (
        a,
        s,
        l,
        arrays_equal_self o desired.audit_actions,
        beq_self desired.audit_status,
        beq_self desired.audit_level,
      )
      refl

-- A status with the actions, the status and the level of a specification.
abbrev with_events : AuditPolicyParameters → AuditPolicyObservation → AuditPolicyObservation
with_events desired observed = record observed {
  audit_actions = desired.audit_actions;
  audit_status = desired.audit_status;
  audit_level = desired.audit_level;
}

recreated :
    (db : Database) (desired : AuditPolicyParameters) (cr : AuditPolicyResource)
    → (recreate db desired cr).0 ≡ ok tt
    → ((Client.recreate_policy db desired cr.history).0 ≡ ok tt)
      × ((recreate db desired cr).1 ≡ record cr {
        status = with_events desired cr.status;
        history = (Client.recreate_policy db desired cr.history).1;
      })
unfolding recreate
recreated db desired cr h = ground arith

-- An Update that recreates the policy and succeeds has dropped the policy, created it and, where the
-- specification wants it, enabled it. The status takes the actions, the level and the status of
-- the specification, and keeps the retention and the switch that it had.
pub auditpolicy_update-recreate :
    (db : Database) (o : MapOrder) (cr : AuditPolicyResource) (create_query : Text)
    → let desired = build_desired_parameters cr in
      needs_recreation o cr.status desired ≡ true
      → Client.prepare_create_sql desired ≡ ok create_query
      → (update db o cr).0 ≡ ok tt
      → let cr' = (update db o cr).1 in
        (cr'.history
          ≡ cr.history
            ++ plain (Client.prepare_delete_sql desired)
              ∷ plain create_query
              ∷ enabling desired desired.enabled)
        × (needs_recreation o cr'.status desired ≡ false)
        × (cr'.status.audit_trail_retention ≡ cr.status.audit_trail_retention)
        × (cr'.status.enabled ≡ cr.status.enabled)
        × (cr'.spec ≡ cr.spec)
unfolding update
auditpolicy_update-recreate db o cr create_query n c h =
    let desired = build_desired_parameters cr in
    let step : update db o cr ≡ recreate db desired cr = rw n refl in
    let (k, e) =
      recreated db desired cr
        (ap (λ (r : Result (Unit {0}) × AuditPolicyResource). r.0) (sym step) ∙ h) in
    rw (step, e)
      (
        recreate_statements db desired create_query cr.history c k,
        not_needed o (with_events desired cr.status) desired refl refl refl,
        refl,
        refl,
        refl,
      )
