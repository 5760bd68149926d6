-- ===== src/Clients/Auditpolicy.antt =====
-- internal/clients/hana/auditpolicy/auditpolicy_client.go
use crossplane_provider_hana.Prelude.{
  Bool, false, Option, none, some, List, [], ◌∷◌, ◌++◌, ◌==◌, if◌then◌else◌,
}
use crossplane_provider_hana.Text.{Text, lit, text_eq, trim_suffix}
use crossplane_provider_hana.Numbers.{ℤ, itoa}
use crossplane_provider_hana.Errors.{Result, ok, err, bind, deref}
use crossplane_provider_hana.Exec.{lift, when, ◌>>=◌, ◌>>◌}
use crossplane_provider_hana.Sql.{
  Sql, Database, exec, query, Rows, Row, scan_text, scan_null_text, scan_null_int, wrong_columns,
}
use crossplane_provider_hana.Utils.{escape_double_quotes}
use crossplane_provider_hana.Apis.{AuditPolicyParameters, AuditPolicyObservation}

abbrev pub no_policy : AuditPolicyObservation
no_policy = record {
  policy_name = [];
  audit_actions = [];
  audit_status = [];
  audit_level = [];
  audit_trail_retention = none;
  enabled = none;
}

-- A row of AUDIT_POLICIES: one for each action of a policy.
pub record PolicyRow : Type 0 where
  pub policy_name : Text
  pub event_status : Text
  pub event_action : Option Text
  pub event_level : Text
  pub retention_period : Option ℤ
  pub is_active : Text

unfoldable pub scan_policy : Row → Result PolicyRow
unfolding scan_text scan_null_text scan_null_int
scan_policy (name ∷ status ∷ action ∷ level ∷ retention ∷ active ∷ []) = bind (scan_text name) λ n.
    bind (scan_text status) λ s. bind (scan_null_text action) λ a. bind (scan_text level) λ l.
      bind (scan_null_int retention) λ r. bind (scan_text active) λ i. ok (record {
        policy_name = n;
        event_status = s;
        event_action = a;
        event_level = l;
        retention_period = r;
        is_active = i;
      })
scan_policy row = err wrong_columns

abbrev append_valid : List Text → Option Text → List Text
append_valid actions none = actions
append_valid actions (some action) = actions ++ action ∷ []

abbrev assign_valid : Option ℤ → Option ℤ → Option ℤ
assign_valid retention none = retention
assign_valid retention (some period) = some period

-- The body of the loop over the rows.
unfoldable pub observe_row : PolicyRow → AuditPolicyObservation → AuditPolicyObservation
unfolding trim_suffix
observe_row row observed = record {
  policy_name = row.policy_name;
  audit_status = trim_suffix (lit " EVENTS") row.event_status;
  audit_actions = append_valid observed.audit_actions row.event_action;
  audit_level = row.event_level;
  audit_trail_retention = assign_valid observed.audit_trail_retention row.retention_period;
  enabled = some (row.is_active == lit "TRUE");
}

unfoldable pub policy_rows : List Row → AuditPolicyObservation → Result AuditPolicyObservation
unfolding scan_policy observe_row
policy_rows [] observed = ok observed
policy_rows (row ∷ rows) observed =
    bind (scan_policy row) λ r. policy_rows rows (observe_row r observed)

abbrev unbroken : Rows → Result AuditPolicyObservation
unbroken r =
    bind (policy_rows r.rows no_policy)
      λ observed. elim r.broken [ none ↦ ok observed | some e ↦ err e ]

abbrev pub get_select_sql : Text
get_select_sql =
    lit
      "SELECT AUDIT_POLICY_NAME, EVENT_STATUS, EVENT_ACTION, EVENT_LEVEL, RETENTION_PERIOD, IS_AUDIT_POLICY_ACTIVE FROM AUDIT_POLICIES WHERE AUDIT_POLICY_NAME = ?"

unfoldable pub add_actions : Text → List Text → Text
add_actions query [] = query
add_actions query (action ∷ actions) = add_actions (query ++ lit " " ++ action ++ lit ",") actions

unfoldable pub prepare_create_sql : AuditPolicyParameters → Result Text
unfolding add_actions trim_suffix itoa
prepare_create_sql parameters = bind (deref parameters.audit_trail_retention) λ retention. ok (
    trim_suffix (lit ",") (
      add_actions
        (lit "CREATE AUDIT POLICY "
          ++ parameters.policy_name
          ++ lit " AUDITING "
          ++ parameters.audit_status)
        parameters.audit_actions)
    ++ lit " LEVEL "
    ++ parameters.audit_level
    ++ lit " TRAIL TYPE TABLE RETENTION "
    ++ itoa retention)

-- ALTER AUDIT POLICY, up to what is altered
abbrev alter_policy : AuditPolicyParameters → Text
alter_policy parameters =
    lit "ALTER AUDIT POLICY \"" ++ escape_double_quotes parameters.policy_name ++ lit "\" "

unfoldable pub prepare_enable_disable_policy_sql : AuditPolicyParameters → Result Text
unfolding escape_double_quotes
prepare_enable_disable_policy_sql parameters =
    bind (deref parameters.enabled)
      λ enabled. ok (alter_policy parameters ++ (if enabled then lit "ENABLE" else lit "DISABLE"))

unfoldable pub prepare_update_retention_days_sql : AuditPolicyParameters → Result Text
unfolding escape_double_quotes itoa
prepare_update_retention_days_sql parameters =
    bind (deref parameters.audit_trail_retention)
      λ retention. ok (alter_policy parameters ++ lit "SET RETENTION " ++ itoa retention)

unfoldable pub prepare_delete_sql : AuditPolicyParameters → Text
unfolding escape_double_quotes
prepare_delete_sql parameters =
    lit "DROP AUDIT POLICY \"" ++ escape_double_quotes parameters.policy_name ++ lit "\""

-- `parameters.Enabled != nil && *parameters.Enabled`
abbrev pub is_set : Option Bool → Bool
is_set none = false
is_set (some b) = b

module _ (db : Database) where
  unfoldable pub read : AuditPolicyParameters → Sql AuditPolicyObservation
  unfolding query policy_rows
  read parameters = do
    rows ← query db get_select_sql (parameters.policy_name ∷ [])
    lift (unbroken rows)

  unfoldable pub create : AuditPolicyParameters → Sql (Unit {0})
  create parameters = do
    create_query ← lift (prepare_create_sql parameters)
    exec db create_query
    when (is_set parameters.enabled)
        (lift (prepare_enable_disable_policy_sql parameters) >>= exec db)

  unfoldable pub update_retention_days : AuditPolicyParameters → Sql (Unit {0})
  unfolding exec prepare_update_retention_days_sql
  update_retention_days parameters = do
    retention_query ← lift (prepare_update_retention_days_sql parameters)
    exec db retention_query

  unfoldable pub update_enable_policy : AuditPolicyParameters → Sql (Unit {0})
  unfolding exec prepare_enable_disable_policy_sql
  update_enable_policy parameters = do
    enable_query ← lift (prepare_enable_disable_policy_sql parameters)
    exec db enable_query

  unfoldable pub delete : AuditPolicyParameters → Sql (Unit {0})
  unfolding exec prepare_delete_sql
  delete parameters = exec db (prepare_delete_sql parameters)

  unfoldable pub recreate_policy : AuditPolicyParameters → Sql (Unit {0})
  unfolding delete create
  recreate_policy parameters = delete parameters >> create parameters
