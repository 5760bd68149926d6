-- ===== src/Tests/Reconcilers.antt =====
-- The theorems on the reconcilers, applied to the resources of the test data.
use crossplane_provider_hana.Prelude.{
  ◌≡◌, refl, sym, beq_self, ap, Bool, true, false, Option, some, none, List, [], ◌∷◌, ◌++◌,
  contains, ◌↔◌, ℕ, ◌==◌, arith, list_eq,
}
use crossplane_provider_hana.Text.{Text, lit, text_eq}
use crossplane_provider_hana.Errors.{Err, wrap, other, ok}
use crossplane_provider_hana.Sql.{plain, str, null}
use crossplane_provider_hana.GoMap.{lookup, nodup}
use crossplane_provider_hana.Apis.{UserParameters, X509UserMapping, mapping_eq}
use crossplane_provider_hana.Controllers.Role as Role
use crossplane_provider_hana.Controllers.Role.Laws as RoleLaws
use crossplane_provider_hana.Controllers.Usergroup as Usergroup
use crossplane_provider_hana.Controllers.Usergroup.Laws as UsergroupLaws
use crossplane_provider_hana.Controllers.Rolegroup as Rolegroup
use crossplane_provider_hana.Controllers.Rolegroup.Laws as RolegroupLaws
use crossplane_provider_hana.Controllers.User.Steps as Steps
use crossplane_provider_hana.Controllers.User.Steps.Laws as StepsLaws
use crossplane_provider_hana.Controllers.User.Observe as Observe
use crossplane_provider_hana.Controllers.User.Observe.Laws as ObserveLaws
use crossplane_provider_hana.Controllers.User.Laws as UserLaws
use crossplane_provider_hana.Controllers.User.Update as Update
use crossplane_provider_hana.Controllers.User.Update.Laws as UpdateLaws
use crossplane_provider_hana.Controllers.User.Inputs.{build_desired_parameters}
use crossplane_provider_hana.Tests.Data.{
  in_order, answering, stale_role, current_role, stale_usergroup, stale_rolegroup, user_parameters,
  user_observation, alice, cluster, by_name, by_reference, bare_role, refusing,
  usergroup_without_parameters, answering_first,
}

update_converges_example :
    let cr' = (Role.update (answering []) in_order (lit "SYS") stale_role).1 in
    (Role.up_to_date in_order cr'.status cr'.spec ≡ true) × (cr'.spec ≡ stale_role.spec)
unfolding Role.update Role.sync_ldap_groups crossplane_provider_hana.Prelude.list_eq
    crossplane_provider_hana.Clients.Role.update_ldap_groups Role.sync_privileges
    crossplane_provider_hana.Clients.Role.update_privileges Role.sync_rolegroup
    crossplane_provider_hana.Clients.Role.update_rolegroup
update_converges_example =
    RoleLaws.update_converges (answering []) in_order (lit "SYS") stale_role refl

update_noop_example :
    Role.update (answering []) in_order (lit "SYS") current_role ≡ (ok tt, current_role)
unfolding Role.up_to_date crossplane_provider_hana.Prelude.list_eq
update_noop_example = RoleLaws.update_noop (answering []) in_order (lit "SYS") current_role refl

usergroup_update_converges_example :
    let cr' = (Usergroup.update (answering []) in_order stale_usergroup).1 in
    (Usergroup.up_to_date in_order cr'.status cr'.spec ≡ true) × (cr'.spec ≡ stale_usergroup.spec)
unfolding Usergroup.update nodup Usergroup.sync_disable_user_admin
    crossplane_provider_hana.Clients.Usergroup.update_disable_user_admin Usergroup.sync_parameters
    crossplane_provider_hana.Clients.Usergroup.update_parameters
usergroup_update_converges_example =
    UsergroupLaws.usergroup_update_converges (answering []) in_order stale_usergroup refl refl

rolegroup_update_converges_example :
    let cr' = (Rolegroup.update (answering []) stale_rolegroup).1 in
    (Rolegroup.up_to_date cr'.status cr'.spec ≡ true) × (cr'.spec ≡ stale_rolegroup.spec)
unfolding Rolegroup.update crossplane_provider_hana.Clients.Rolegroup.update_disable_role_admin
rolegroup_update_converges_example =
    RolegroupLaws.rolegroup_update_converges (answering []) stale_rolegroup refl

rolegroup_observe-update_example :
    let db = answering ((str (lit "RG") ∷ str (lit "FALSE") ∷ []) ∷ []) in
    Rolegroup.update db (Rolegroup.observe db stale_rolegroup).1
    ≡ (ok tt, (Rolegroup.observe db stale_rolegroup).1)
unfolding Rolegroup.observe crossplane_provider_hana.Clients.Rolegroup.read
    crossplane_provider_hana.Prelude.list_eq
rolegroup_observe-update_example =
    RolegroupLaws.rolegroup_observe-update
      (answering ((str (lit "RG") ∷ str (lit "FALSE") ∷ []) ∷ [])) stale_rolegroup refl

update_parameters_sends_nothing_example :
    (Steps.update_parameters
      (answering [])
      in_order
      user_parameters
      user_observation
      alice).1.history
    ≡ plain (lit "ALTER USER ALICE") ∷ []
unfolding nodup lookup list_eq
update_parameters_sends_nothing_example =
    UserLaws.update_parameters_sends_nothing (answering []) in_order user_parameters
      user_observation alice refl refl (lit "CLIENT")
      (λ e.
        let apart : true ≡ false = ap (λ (x : Option Text). Observe.same_text x (lit "100")) e in
        cc)

-- What the step returns where the database refuses its statement.
abbrev refused_parameters : Err
refused_parameters =
    wrap (lit "cannot update user: ")
      (wrap (lit "cannot update user parameters: ") (other (lit "refused")))

failed_step_example :
    let db = refusing (lit "ALTER USER ALICE") in
    let after = (Steps.update_parameters db in_order user_parameters user_observation alice).1 in
    (after.spec ≡ alice.spec) × (after.status ≡ alice.status) × (after.ready ≡ alice.ready)
unfolding Steps.update_parameters list_eq crossplane_provider_hana.Clients.User.update_parameters
failed_step_example =
    StepsLaws.failed_step (refusing (lit "ALTER USER ALICE")) cluster in_order (lit "SYS")
      user_parameters user_observation
      (Steps.update_parameters (refusing (lit "ALTER USER ALICE")) in_order user_parameters
        user_observation)
      StepsLaws.IsStep.parameters alice refused_parameters refl

maps_equal_iff_example :
    (Observe.maps_equal user_observation.parameters user_parameters.parameters ≡ true)
    ↔ ((j : Text) → lookup user_observation.parameters j ≡ lookup user_parameters.parameters j)
unfolding nodup
maps_equal_iff_example =
    ObserveLaws.maps_equal_iff user_observation.parameters user_parameters.parameters refl refl

only_by_name : (m : X509UserMapping) → contains (by_name ∷ []) m ≡ true → m.provider_ref ≡ none
unfolding contains
only_by_name m h =
    ap (λ (x : X509UserMapping). x.provider_ref)
      (sym ((mapping_eq.beq_iff by_name m).0 (ground arith)))

reference_never_up_to_date_example :
    Observe.up_to_date in_order
      (record user_observation { x509_providers = by_name ∷ [] })
      (record user_parameters {
        authentication = record { password = none; x509_providers = some (by_reference ∷ []) };
      })
    ≡ false
unfolding nodup contains
reference_never_up_to_date_example =
    ObserveLaws.reference_never_up_to_date in_order
      (record user_observation { x509_providers = by_name ∷ [] })
      (record user_parameters {
        authentication = record { password = none; x509_providers = some (by_reference ∷ []) };
      })
      refl refl only_by_name by_reference (record { address = 7; name = lit "idp" })
      (ground (arith, beq_self by_reference)) refl

role_observe-update_example :
    let db = answering_first ((null ∷ str (lit "READER") ∷ str (lit "RG") ∷ []) ∷ []) in
    Role.update db in_order (lit "SYS") (Role.observe db in_order (lit "SYS") bare_role).1
    ≡ (ok tt, (Role.observe db in_order (lit "SYS") bare_role).1)
unfolding Role.observe crossplane_provider_hana.Clients.Role.read list_eq
role_observe-update_example =
    RoleLaws.role_observe-update
      (answering_first ((null ∷ str (lit "READER") ∷ str (lit "RG") ∷ []) ∷ [])) in_order
      (lit "SYS") bare_role refl

usergroup_observe-update_example :
    let db = answering_first ((str (lit "UG") ∷ str (lit "FALSE") ∷ []) ∷ []) in
    let cr = usergroup_without_parameters in
    Usergroup.update db in_order (Usergroup.observe db in_order cr).1
    ≡ (ok tt, (Usergroup.observe db in_order cr).1)
unfolding Usergroup.observe crossplane_provider_hana.Clients.Usergroup.read list_eq
usergroup_observe-update_example =
    UsergroupLaws.usergroup_observe-update
      (answering_first ((str (lit "UG") ∷ str (lit "FALSE") ∷ []) ∷ [])) in_order
      usergroup_without_parameters refl

user_update_settles_example :
    (desired : UserParameters) × (build_desired_parameters in_order (λ a. a) (lit "SYS") alice.spec
      ≡ ok desired)
    × UpdateLaws.IsSettled in_order
        (Update.update (answering []) cluster in_order (λ a. a) (lit "SYS") alice).1.status
        desired
unfolding Update.update list_eq Steps.update_privileges
    crossplane_provider_hana.Clients.User.update_privileges Steps.update_roles
    Steps.update_parameters crossplane_provider_hana.Clients.User.update_parameters
    Steps.update_usergroup Steps.update_x509_providers Steps.update_password_lifetime_check
    Steps.update_password
user_update_settles_example =
    UpdateLaws.user_update_settles (answering []) cluster in_order (λ a. a) (lit "SYS") alice refl
      refl
