-- ===== src/Controllers/Rolegroup/Laws.antt =====
-- What the handlers of a role group do to its status and to the database.
use crossplane_provider_hana.Prelude.{Bool, true, false, ◌≡◌, refl, arith}
use crossplane_provider_hana.Text.{text_eq}
use crossplane_provider_hana.Errors.{ok}
use crossplane_provider_hana.Sql.{Database}
use crossplane_provider_hana.Controllers.Usergroup.{bool_eq}
use crossplane_provider_hana.Controllers.Rolegroup.{RolegroupResource, up_to_date, observe, update}

bool_eq_refl : (b : Bool) → bool_eq b b ≡ true
bool_eq_refl true = refl
bool_eq_refl false = refl

module _ (db : Database) (cr : RolegroupResource) where
  -- Update of a role group whose status is up to date succeeds, sends nothing and changes nothing.
  pub rolegroup_update_noop : up_to_date cr.status cr.spec ≡ true → update db cr ≡ (ok tt, cr)
  unfolding update up_to_date
  rolegroup_update_noop h = ground arith

  -- After an Update that succeeds, the status is up to date with the specification, which is
  -- unchanged.
  pub rolegroup_update_converges :
      (update db cr).0 ≡ ok tt
      → let cr' = (update db cr).1 in (up_to_date cr'.status cr'.spec ≡ true) × (cr'.spec ≡ cr.spec)
  unfolding update up_to_date
  rolegroup_update_converges h = ground (arith, bool_eq_refl cr.spec.disable_role_admin)

  -- Observe leaves the specification, and reports the test of the status that it stores.
  observed_status :
      {b : Bool}
      → (observe db cr).0 ≡ ok (record { resource_exists = true; resource_up_to_date = b })
      → let cr' = (observe db cr).1 in (up_to_date cr'.status cr'.spec ≡ b) × (cr'.spec ≡ cr.spec)
  unfolding observe up_to_date
  observed_status h = ground arith

module _ (db : Database) (cr : RolegroupResource) where
  -- After an Observe that reports the role group as there and up to date, an Update of the same
  -- resource succeeds, sends nothing and changes nothing.
  pub rolegroup_observe-update :
      (observe db cr).0 ≡ ok (record { resource_exists = true; resource_up_to_date = true })
      → update db (observe db cr).1 ≡ (ok tt, (observe db cr).1)
  rolegroup_observe-update h =
      rolegroup_update_noop db (observe db cr).1 (observed_status db cr h).0
