-- ===== src/Controllers/Usergroup/Laws.antt =====
-- What the handlers of a user group do to its status and to the database.
use crossplane_provider_hana.Prelude.{Bool, true, false, [], ◌≡◌, refl, sym, ap, arith, ◌∙◌}
use crossplane_provider_hana.Text.{Text, text_eq}
use crossplane_provider_hana.Errors.{Result, ok}
use crossplane_provider_hana.Exec.{bind_ok}
use crossplane_provider_hana.Sql.{Database}
use crossplane_provider_hana.GoMap.{GoMap, MapOrder, IsMap}
use crossplane_provider_hana.Utils.{map_diff_only_desired}
use crossplane_provider_hana.Utils.Maps.{map_diff_only_desired_empty}
use crossplane_provider_hana.Apis.{UsergroupParameters}
use crossplane_provider_hana.Privilege.Client.{is_nil}
use crossplane_provider_hana.Controllers.Usergroup.{
  UsergroupResource, bool_eq, up_to_date, sync_disable_user_admin, sync_parameters, update, observe,
}

bool_eq_self : (b : Bool) → bool_eq b b ≡ true
bool_eq_self true = refl
bool_eq_self false = refl

-- A map differs from itself in nothing.
nothing_to_update :
    (o : MapOrder) (m : GoMap Text Text) → IsMap m → map_diff_only_desired o m m ≡ []
nothing_to_update o m h = (map_diff_only_desired_empty o m m h).1 (λ j x p. p)

module _ (db : Database) (o : MapOrder) (parameters : UsergroupParameters)
    (cr : UsergroupResource) where
  disable_user_admin_synced :
      (sync_disable_user_admin db parameters cr).0 ≡ ok tt
      → let cr' = (sync_disable_user_admin db parameters cr).1 in
        (bool_eq cr'.status.disable_user_admin parameters.disable_user_admin ≡ true)
        × (cr'.status.parameters ≡ cr.status.parameters)
        × (cr'.spec ≡ cr.spec)
  unfolding sync_disable_user_admin
  disable_user_admin_synced h = ground (arith, bool_eq_self parameters.disable_user_admin)

  parameters_synced :
      IsMap parameters.parameters
      → (sync_parameters db o parameters cr).0 ≡ ok tt
      → let cr' = (sync_parameters db o parameters cr).1 in
        (is_nil (map_diff_only_desired o cr'.status.parameters parameters.parameters) ≡ true)
        × (cr'.status.disable_user_admin ≡ cr.status.disable_user_admin)
        × (cr'.spec ≡ cr.spec)
  unfolding sync_parameters
  parameters_synced m h = ground (arith, nothing_to_update o parameters.parameters m)

module _ (db : Database) (o : MapOrder) (cr : UsergroupResource) where
  -- Update of a user group whose status is up to date succeeds, sends nothing and changes nothing.
  pub usergroup_update_noop : up_to_date o cr.status cr.spec ≡ true → update db o cr ≡ (ok tt, cr)
  unfolding update up_to_date sync_disable_user_admin sync_parameters
  usergroup_update_noop h = ground arith

  -- After an Update that succeeds, the status is up to date with the specification, which is
  -- unchanged.
  pub usergroup_update_converges :
      IsMap cr.spec.parameters
      → (update db o cr).0 ≡ ok tt
      → let cr' = (update db o cr).1 in
        (up_to_date o cr'.status cr'.spec ≡ true) × (cr'.spec ≡ cr.spec)
  unfolding update up_to_date
  usergroup_update_converges m h =
      let p = cr.spec in
      let m1 = sync_disable_user_admin db p in
      let m2 = sync_parameters db o p in
      let (_, e1, s1) = bind_ok m1 (λ _. m2) cr h in
      let cr1 = (m1 cr).1 in
      let h1 : (m2 cr1).0 ≡ ok tt =
        ap (λ (r : Result (Unit {0}) × UsergroupResource). r.0) (sym s1) ∙ h in
      let (d1, q1, k1) = disable_user_admin_synced db o p cr e1 in
      let (q2, d2, k2) = parameters_synced db o p cr1 m h1 in
      rw s1 (rw (k2 ∙ k1) (rw (d2, d1) (ground (arith, q2))), k2 ∙ k1)

  -- Observe leaves the specification, and reports the test of the status that it stores.
  usergroup_observed_status :
      {b : Bool}
      → (observe db o cr).0 ≡ ok (record { resource_exists = true; resource_up_to_date = b })
      → let cr' = (observe db o cr).1 in
        (up_to_date o cr'.status cr'.spec ≡ b) × (cr'.spec ≡ cr.spec)
  unfolding observe up_to_date
  usergroup_observed_status h = ground arith

-- After an Observe that reports the user group as there and up to date, an Update of the same
-- resource succeeds, sends nothing and changes nothing.
pub usergroup_observe-update :
    (db : Database) (o : MapOrder) (cr : UsergroupResource)
    → (observe db o cr).0 ≡ ok (record { resource_exists = true; resource_up_to_date = true })
    → update db o (observe db o cr).1 ≡ (ok tt, (observe db o cr).1)
usergroup_observe-update db o cr h =
    usergroup_update_noop db o (observe db o cr).1 (usergroup_observed_status db o cr h).0
