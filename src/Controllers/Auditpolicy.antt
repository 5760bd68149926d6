-- ===== src/Controllers/Auditpolicy.antt =====
-- internal/controller/auditpolicy/reconciler.go: the external client of audit policies.
pub mod Laws
pub mod Recreation
use crossplane_provider_hana.Prelude.{
  Bool, true, false, ◌&&◌, ◌||◌, not, Option, none, some, List, [], ◌==◌, if◌then◌else◌,
}
use crossplane_provider_hana.Text.{Text, lit, text_eq, to_upper, is_empty}
use crossplane_provider_hana.Numbers.{ℤ, ℤ_eq}
use crossplane_provider_hana.Errors.{Err, Result, ok, err, wrapping, bind, deref}
use crossplane_provider_hana.Exec.{Exec, pure, fail, lift, when, ◌>>=◌, ◌>>◌, or_fail}
use crossplane_provider_hana.Sql.{Database}
use crossplane_provider_hana.GoMap.{MapOrder}
use crossplane_provider_hana.Utils.{arrays_equal, array_to_upper}
use crossplane_provider_hana.Apis.{
  AuditPolicyParameters, AuditPolicyObservation, Ready, available, creating, deleting,
}
use crossplane_provider_hana.Clients.Auditpolicy as Client
use crossplane_provider_hana.Controllers.{
  Managed, ExternalObservation, on_db, set_ready, set_status, get_status,
}
use crossplane_provider_hana.Controllers.Usergroup.{bool_eq}

abbrev pub AuditPolicyResource : Type 0
AuditPolicyResource = Managed AuditPolicyParameters AuditPolicyObservation

abbrev pub Handler : Type 0 → Type 0
Handler A = Exec AuditPolicyResource A

unfoldable pub build_desired_parameters : AuditPolicyResource → AuditPolicyParameters
unfolding to_upper array_to_upper
build_desired_parameters cr = record {
  policy_name = to_upper cr.spec.policy_name;
  audit_status = to_upper cr.spec.audit_status;
  audit_actions = array_to_upper cr.spec.audit_actions;
  audit_level = to_upper cr.spec.audit_level;
  audit_trail_retention = cr.spec.audit_trail_retention;
  enabled = cr.spec.enabled;
}

abbrev desired_parameters : Handler AuditPolicyParameters
desired_parameters cr = (ok (build_desired_parameters cr), cr)

unfoldable pub needs_recreation : MapOrder → AuditPolicyObservation → AuditPolicyParameters → Bool
unfolding arrays_equal
needs_recreation o observed desired =
    not (arrays_equal o desired.audit_actions observed.audit_actions)
    || not (observed.audit_status == desired.audit_status)
    || not (observed.audit_level == desired.audit_level)

-- `*p == *q` on *int and on *bool
unfoldable pub same_int : Option ℤ → Option ℤ → Result Bool
same_int p q = bind (deref p) λ x. bind (deref q) λ y. ok (x == y)

unfoldable pub same_bool : Option Bool → Option Bool → Result Bool
same_bool p q = bind (deref p) λ x. bind (deref q) λ y. ok (bool_eq x y)

unfoldable pub up_to_date : MapOrder → AuditPolicyObservation → AuditPolicyParameters → Result Bool
unfolding arrays_equal same_int same_bool
up_to_date o observed desired =
    if not (observed.policy_name == desired.policy_name)
      || not (observed.audit_status == desired.audit_status)
      || not (observed.audit_level == desired.audit_level)
    then ok false
    else bind (same_int observed.audit_trail_retention desired.audit_trail_retention)
        λ same_retention.
          if not same_retention
          then ok false
          else bind (same_bool observed.enabled desired.enabled) λ same_enabled.
            ok (same_enabled && arrays_equal o observed.audit_actions desired.audit_actions)

abbrev update_failure : Err → Err
update_failure = wrapping (lit "cannot update audit policy: ")

module _ (db : Database) where
  -- The first test of the second branch of Update.
  unfoldable pub sync_retention :
      AuditPolicyObservation → AuditPolicyParameters → Handler (Unit {0})
  unfolding same_int wrapping
  sync_retention observed desired = do
    same ← lift (same_int observed.audit_trail_retention desired.audit_trail_retention)
    if same then pure tt else do
      or_fail update_failure (on_db (Client.update_retention_days db desired))
      set_status λ s. record s {
        audit_trail_retention = desired.audit_trail_retention;
        enabled = desired.enabled;
      }

  -- The second test: `observed` is the copy that Update took at its start.
  unfoldable pub sync_enabled : AuditPolicyObservation → AuditPolicyParameters → Handler (Unit {0})
  unfolding same_bool wrapping
  sync_enabled observed desired = do
    same ← lift (same_bool observed.enabled desired.enabled)
    if same then pure tt else do
      or_fail update_failure (on_db (Client.update_enable_policy db desired))
      set_status λ s. record s {
        audit_trail_retention = desired.audit_trail_retention;
        enabled = desired.enabled;
      }

  -- The first branch of Update.
  unfoldable pub recreate : AuditPolicyParameters → Handler (Unit {0})
  unfolding wrapping
  recreate desired = do
    or_fail update_failure (on_db (Client.recreate_policy db desired))
    set_status λ s. record s {
      audit_actions = desired.audit_actions;
      audit_status = desired.audit_status;
      audit_level = desired.audit_level;
    }

  unfoldable pub create : Handler (Unit {0})
  unfolding build_desired_parameters wrapping
  create = do
    parameters ← desired_parameters
    set_ready creating
    or_fail (wrapping (lit "cannot create audit policy: ")) (on_db (Client.create db parameters))

  unfoldable pub delete : Handler (Unit {0})
  unfolding build_desired_parameters wrapping
  delete = do
    parameters ← desired_parameters
    set_ready deleting
    or_fail (wrapping (lit "cannot drop audit policy: ")) (on_db (Client.delete db parameters))

module _ (db : Database) (o : MapOrder) where
  unfoldable pub observe : Handler ExternalObservation
  unfolding build_desired_parameters up_to_date wrapping is_empty
  observe = do
    parameters ← desired_parameters
    observed ←
        or_fail (wrapping (lit "cannot select audit policy: ")) (on_db (Client.read db parameters))
    if is_empty observed.policy_name || not (observed.policy_name == parameters.policy_name)
        then pure (record { resource_exists = false; resource_up_to_date = false })
        else do
          set_status λ _. observed
          set_ready available
          is_up_to_date ← lift (up_to_date o observed parameters)
          pure (record { resource_exists = true; resource_up_to_date = is_up_to_date })

  unfoldable pub update : Handler (Unit {0})
  unfolding build_desired_parameters needs_recreation
  update = do
    observed ← get_status
    desired ← desired_parameters
    if needs_recreation o observed desired
        then recreate db desired
        else do sync_retention db observed desired; sync_enabled db observed desired
