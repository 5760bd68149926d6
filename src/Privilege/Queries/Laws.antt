-- ===== src/Privilege/Queries/Laws.antt =====
-- Which observed privileges the two management policies keep.
use crossplane_provider_hana.Prelude.{
  Bool, true, ◌&&◌, ◌||◌, not, List, [], ◌∷◌, ◌++◌, ◌==◌, contains, ◌≡◌, refl, ap, arith,
  Bool-cases, inl, inr, list_eq,
}
use crossplane_provider_hana.Text.{Text, lit, text_eq}
use crossplane_provider_hana.Errors.{ok, err, other}
use crossplane_provider_hana.Privilege.{get_default_privilege}
use crossplane_provider_hana.Privilege.Queries.{managed_privileges, filter_managed_privileges}

same_test : (p q : Text) → p == q ≡ true → (f : Text → Bool) → f p ≡ f q
same_test p q h f = ap f ((text_eq.beq_iff p q).0 h)

-- The lax policy keeps an observed privilege exactly where it is not the default one and is named
-- by the specification or was managed before.
pub contains-managed_privileges :
    (spec_privileges prev_privileges : List Text) (default_privilege : Text) (observed : List Text)
    (q : Text)
    → contains (managed_privileges spec_privileges prev_privileges default_privilege observed) q ≡ (
        contains observed q
        && (not (q == default_privilege)
            && (contains spec_privileges q || contains prev_privileges q)))
unfolding managed_privileges contains
contains-managed_privileges spec prev d [] q = refl
contains-managed_privileges spec prev d (p ∷ observed) q = elim (Bool-cases (p == q)) [
  | inl same ↦ ground (
    arith,
    contains-managed_privileges spec prev d observed q,
    same_test p q same (λ x. x == d),
    same_test p q same (contains spec),
    same_test p q same (contains prev),
  )
  | inr apart ↦ ground (arith, contains-managed_privileges spec prev d observed q)
]

-- FilterManagedPrivileges returns all that is observed under the strict policy; under the lax one it
-- succeeds and returns of it just the privileges that are not the default one of the schema and that
-- the specification names or that were managed before.
pub filter_managed_privileges_lem :
    (observed spec prev : List Text) (schema : Text)
    → (filter_managed_privileges observed spec prev (lit "strict") schema ≡ ok observed)
      × ((kept : List Text) × (filter_managed_privileges observed spec prev (lit "lax") schema
            ≡ ok kept)
          × ((q : Text)
              → contains kept q ≡ (
                  contains observed q
                  && (not (q == get_default_privilege schema)
                      && (contains spec q || contains prev q)))))
unfolding filter_managed_privileges list_eq
filter_managed_privileges_lem observed spec prev schema = (
  refl,
  (
    managed_privileges spec prev (get_default_privilege schema) observed,
    refl,
    contains-managed_privileges spec prev _ observed,
  ),
)

-- Under a policy that is neither of the two, FilterManagedPrivileges fails and names the policy.
pub filter_managed_privileges_unknown :
    (observed spec prev : List Text) (policy schema : Text)
    → ¬ (policy ≡ lit "strict")
    → ¬ (policy ≡ lit "lax")
    → filter_managed_privileges observed spec prev policy schema
      ≡ err (other (lit "unknown privilege management policy: " ++ policy))
unfolding filter_managed_privileges
filter_managed_privileges_unknown observed spec prev policy schema no_strict no_lax =
    ground (arith, text_eq.beq_iff policy (lit "strict"), text_eq.beq_iff policy (lit "lax"))
