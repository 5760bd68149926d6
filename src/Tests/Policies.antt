-- ===== src/Tests/Policies.antt =====
-- The theorems on audit policies, applied to a policy.
use crossplane_provider_hana.Prelude.{◌≡◌, refl, true, false, some, none, [], ◌∷◌, ◌++◌}
use crossplane_provider_hana.Text.{Text, lit}
use crossplane_provider_hana.Numbers.ℤ.{pos}
use crossplane_provider_hana.Errors.{ok}
use crossplane_provider_hana.Sql.{plain}
use crossplane_provider_hana.Apis.{AuditPolicyParameters, AuditPolicyObservation}
use crossplane_provider_hana.Controllers.{Managed}
use crossplane_provider_hana.Controllers.Auditpolicy.{
  build_desired_parameters, needs_recreation, up_to_date, update, observe,
}
use crossplane_provider_hana.Controllers.Auditpolicy.Laws.{auditpolicy_update_converges}
use crossplane_provider_hana.Controllers.Auditpolicy.Recreation.{auditpolicy_update-recreate}
use crossplane_provider_hana.Tests.Data.{in_order, answering}

-- The retention and the switch of the policy are behind the specification.
abbrev stale_policy : Managed AuditPolicyParameters AuditPolicyObservation
stale_policy = record {
  spec = record {
    policy_name = lit "ap";
    audit_actions = lit "connect" ∷ [];
    audit_status = lit "ALL";
    audit_level = lit "INFO";
    audit_trail_retention = some (pos 7);
    enabled = some true;
  };
  status = record {
    policy_name = lit "AP";
    audit_actions = lit "CONNECT" ∷ [];
    audit_status = lit "ALL";
    audit_level = lit "INFO";
    audit_trail_retention = some (pos 9);
    enabled = some false;
  };
  ready = none;
  history = [];
}

abbrev policy_of_other_level : Managed AuditPolicyParameters AuditPolicyObservation
policy_of_other_level = record stale_policy {
  status = record (stale_policy.status) { audit_level = lit "ALERT" };
}

auditpolicy_update_converges_example :
    let cr' = (update (answering []) in_order stale_policy).1 in
    (up_to_date in_order cr'.status (build_desired_parameters stale_policy) ≡ ok true)
    × (cr'.spec ≡ stale_policy.spec)
unfolding needs_recreation update crossplane_provider_hana.Prelude.list_eq
    crossplane_provider_hana.Controllers.Auditpolicy.sync_retention
    crossplane_provider_hana.Numbers.int_beq
    crossplane_provider_hana.Clients.Auditpolicy.update_retention_days
    crossplane_provider_hana.Controllers.Auditpolicy.sync_enabled
    crossplane_provider_hana.Clients.Auditpolicy.update_enable_policy
auditpolicy_update_converges_example =
    auditpolicy_update_converges (answering []) in_order stale_policy refl refl refl

auditpolicy_update-recreate_example :
    let cr' = (update (answering []) in_order policy_of_other_level).1 in
    (cr'.history
      ≡ plain (lit "DROP AUDIT POLICY \"AP\"")
        ∷ plain (
            lit
              "CREATE AUDIT POLICY AP AUDITING ALL CONNECT LEVEL INFO TRAIL TYPE TABLE RETENTION 7")
        ∷ plain (lit "ALTER AUDIT POLICY \"AP\" ENABLE")
        ∷ [])
    × (needs_recreation in_order cr'.status (build_desired_parameters policy_of_other_level)
        ≡ false)
    × (cr'.status.audit_trail_retention ≡ some (pos 9))
    × (cr'.status.enabled ≡ some false)
    × (cr'.spec ≡ policy_of_other_level.spec)
unfolding update needs_recreation crossplane_provider_hana.Prelude.list_eq
    crossplane_provider_hana.Clients.Auditpolicy.prepare_create_sql
    crossplane_provider_hana.Controllers.Auditpolicy.recreate
    crossplane_provider_hana.Clients.Auditpolicy.recreate_policy
    crossplane_provider_hana.Clients.Auditpolicy.prepare_enable_disable_policy_sql
    crossplane_provider_hana.Text.replace_all
auditpolicy_update-recreate_example =
    auditpolicy_update-recreate (answering []) in_order policy_of_other_level
      (lit "CREATE AUDIT POLICY AP AUDITING ALL CONNECT LEVEL INFO TRAIL TYPE TABLE RETENTION 7")
      refl refl refl
