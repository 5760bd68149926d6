-- ===== src/Controllers/Role/Laws.antt =====
-- What the handlers of a role do to its status and to the database.
use crossplane_provider_hana.Prelude.{
  Bool, true, List, ◌==◌, ◌≡◌, refl, sym, ap, arith, beq_self, ◌∙◌, Eq,
}
use crossplane_provider_hana.Text.{Text, text_eq}
use crossplane_provider_hana.Errors.{Result, ok}
use crossplane_provider_hana.Exec.{◌>>◌, bind_ok}
use crossplane_provider_hana.Sql.{Database}
use crossplane_provider_hana.GoMap.{MapOrder}
use crossplane_provider_hana.Utils.{arrays_equal}
use crossplane_provider_hana.Utils.Arrays.{arrays_equal_iff, both_diff-equal}
use crossplane_provider_hana.Apis.{RoleParameters, RoleObservation}
use crossplane_provider_hana.Controllers.Role.{
  RoleResource, up_to_date, sync_ldap_groups, sync_privileges, sync_rolegroup, update, observe,
}

module _ {A : Type 0} ⦃e : Eq A⦄ where
  arrays_equal_self : (o : MapOrder) (xs : List A) → arrays_equal o xs xs ≡ true
  arrays_equal_self o xs = (arrays_equal_iff o xs xs).1 (λ a. refl)

  arrays_equal_sym :
      (o : MapOrder) (xs ys : List A) → arrays_equal o xs ys ≡ true → arrays_equal o ys xs ≡ true
  arrays_equal_sym o xs ys h =
      (arrays_equal_iff o ys xs).1 (λ a. sym ((arrays_equal_iff o xs ys).0 h a))

module _ (db : Database) (o : MapOrder) (username : Text) (parameters : RoleParameters)
    (cr : RoleResource) where
  ldap_groups_synced :
      (sync_ldap_groups db o username parameters cr.status.ldap_groups cr).0 ≡ ok tt
      → let cr' = (sync_ldap_groups db o username parameters cr.status.ldap_groups cr).1 in
        (arrays_equal o cr'.status.ldap_groups parameters.ldap_groups ≡ true)
        × (cr'.status.privileges ≡ cr.status.privileges)
        × (cr'.spec ≡ cr.spec)
  unfolding sync_ldap_groups
  ldap_groups_synced h = ground (
    arith,
    both_diff-equal o parameters.ldap_groups cr.status.ldap_groups,
    arrays_equal_self o parameters.ldap_groups,
    arrays_equal_sym o parameters.ldap_groups cr.status.ldap_groups,
  )

  privileges_synced :
      (observed : List Text)
      → observed ≡ cr.status.privileges
      → (sync_privileges db o username parameters observed cr).0 ≡ ok tt
      → let cr' = (sync_privileges db o username parameters observed cr).1 in
        (arrays_equal o cr'.status.privileges parameters.privileges ≡ true)
        × (cr'.status.ldap_groups ≡ cr.status.ldap_groups)
        × (cr'.spec ≡ cr.spec)
  unfolding sync_privileges
  privileges_synced observed p h = ground (
    arith,
    both_diff-equal o parameters.privileges observed,
    arrays_equal_self o parameters.privileges,
    arrays_equal_sym o parameters.privileges observed,
  )

  rolegroup_synced :
      (sync_rolegroup db o username parameters cr).0 ≡ ok tt
      → let cr' = (sync_rolegroup db o username parameters cr).1 in
        (cr'.status.rolegroup == parameters.rolegroup ≡ true)
        × (cr'.status.ldap_groups ≡ cr.status.ldap_groups)
        × (cr'.status.privileges ≡ cr.status.privileges)
        × (cr'.spec ≡ cr.spec)
  unfolding sync_rolegroup
  rolegroup_synced h = ground (arith, beq_self parameters.rolegroup)

  ldap_groups_noop :
      arrays_equal o cr.status.ldap_groups parameters.ldap_groups ≡ true
      → sync_ldap_groups db o username parameters cr.status.ldap_groups cr ≡ (ok tt, cr)
  unfolding sync_ldap_groups
  ldap_groups_noop h = ground (
    arith,
    both_diff-equal o parameters.ldap_groups cr.status.ldap_groups,
    arrays_equal_sym o cr.status.ldap_groups parameters.ldap_groups,
  )

  privileges_noop :
      arrays_equal o cr.status.privileges parameters.privileges ≡ true
      → sync_privileges db o username parameters cr.status.privileges cr ≡ (ok tt, cr)
  unfolding sync_privileges
  privileges_noop h = ground (
    arith,
    both_diff-equal o parameters.privileges cr.status.privileges,
    arrays_equal_sym o cr.status.privileges parameters.privileges,
  )

  rolegroup_noop :
      cr.status.rolegroup == parameters.rolegroup ≡ true
      → sync_rolegroup db o username parameters cr ≡ (ok tt, cr)
  unfolding sync_rolegroup
  rolegroup_noop h = ground arith

up_to_date_of_parts :
    (o : MapOrder) (status : RoleObservation) (spec : RoleParameters)
    → arrays_equal o status.ldap_groups spec.ldap_groups ≡ true
    → arrays_equal o status.privileges spec.privileges ≡ true
    → status.rolegroup == spec.rolegroup ≡ true
    → up_to_date o status spec ≡ true
unfolding up_to_date
up_to_date_of_parts o status spec g p r = ground arith

module _ (db : Database) (o : MapOrder) (username : Text) (cr : RoleResource) where
  -- The parts of the test of a role.
  up_to_date_parts :
      up_to_date o cr.status cr.spec ≡ true
      → (arrays_equal o cr.status.ldap_groups cr.spec.ldap_groups ≡ true)
        × (arrays_equal o cr.status.privileges cr.spec.privileges ≡ true)
        × (cr.status.rolegroup == cr.spec.rolegroup ≡ true)
  unfolding up_to_date
  up_to_date_parts h = ground arith

  -- Update of a role whose status is up to date succeeds, sends nothing and changes nothing.
  pub update_noop : up_to_date o cr.status cr.spec ≡ true → update db o username cr ≡ (ok tt, cr)
  unfolding update
  update_noop h =
      let (g, p, r) = up_to_date_parts h in
      rw (
        ldap_groups_noop db o username cr.spec cr g,
        privileges_noop db o username cr.spec cr p,
        rolegroup_noop db o username cr.spec cr r,
      )

  -- After an Update that succeeds, the status is up to date with the specification.
  pub update_converges :
      (update db o username cr).0 ≡ ok tt
      → let cr' = (update db o username cr).1 in
        (up_to_date o cr'.status cr'.spec ≡ true) × (cr'.spec ≡ cr.spec)
  unfolding update
  update_converges h =
      let p = cr.spec in
      let m1 = sync_ldap_groups db o username p cr.status.ldap_groups in
      let m2 = sync_privileges db o username p cr.status.privileges in
      let m3 = sync_rolegroup db o username p in
      let (_, e1, s1) = bind_ok m1 (λ _. m2 >> m3) cr h in
      let cr1 = (m1 cr).1 in
      let h1 : ((m2 >> m3) cr1).0 ≡ ok tt =
        ap (λ (r : Result (Unit {0}) × RoleResource). r.0) (sym s1) ∙ h in
      let (_, e2, s2) = bind_ok m2 (λ _. m3) cr1 h1 in
      let cr2 = (m2 cr1).1 in
      let h2 : (m3 cr2).0 ≡ ok tt =
        ap (λ (r : Result (Unit {0}) × RoleResource). r.0) (sym s2) ∙ h1 in
      let (g1, p1, k1) = ldap_groups_synced db o username p cr e1 in
      let (p2, g2, k2) = privileges_synced db o username p cr1 cr.status.privileges (sym p1) e2 in
      let (r3, g3, p3, k3) = rolegroup_synced db o username p cr2 h2 in
      let cr3 = (m3 cr2).1 in
      let k = k3 ∙ (k2 ∙ k1) in
      rw (s1 ∙ s2) (rw k (up_to_date_of_parts o cr3.status p (rw (g3 ∙ g2) g1) (rw p3 p2) r3), k)

  -- Observe leaves the specification, and reports the test of the status that it stores.
  role_observed_status :
      {b : Bool}
      → (observe db o username cr).0
        ≡ ok (record { resource_exists = true; resource_up_to_date = b })
      → let cr' = (observe db o username cr).1 in
        (up_to_date o cr'.status cr'.spec ≡ b) × (cr'.spec ≡ cr.spec)
  unfolding observe up_to_date
  role_observed_status h = ground arith

-- After an Observe that reports the role as there and up to date, an Update of the same resource
-- succeeds, sends nothing and changes nothing.
pub role_observe-update :
    (db : Database) (o : MapOrder) (username : Text) (cr : RoleResource)
    → (observe db o username cr).0
      ≡ ok (record { resource_exists = true; resource_up_to_date = true })
    → update db o username (observe db o username cr).1 ≡ (ok tt, (observe db o username cr).1)
role_observe-update db o username cr h =
    update_noop db o username (observe db o username cr).1
      (role_observed_status db o username cr h).0
