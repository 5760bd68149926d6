-- ===== src/Privilege/Groups/Laws.antt =====
-- How groupPrivilegesByTypeAndIdentifier distributes the privileges over its keys.
use crossplane_provider_hana.Prelude.{
  Bool, true, false, List, [], ◌∷◌, ◌++◌, if◌then◌else◌, ◌==◌, ◌≡◌, refl, sym, ap, ◌∙◌, arith,
  Bool-cases, inl, inr, append_assoc, append-nil,
}
use crossplane_provider_hana.Text.{Text}
use crossplane_provider_hana.GoMap.{GoMap, lookup, IsMap, nodup}
use crossplane_provider_hana.GoMap.Laws.{lookup-assign, assign-IsMap}
use crossplane_provider_hana.Privilege.{Privilege}
use crossplane_provider_hana.Privilege.Groups.{
  GroupKey, group_key_eq, group_key, names_of, add_to_group, collect_groups,
}

-- The names of the privileges that have a key, in the order of the list.
abbrev pub names_with : GroupKey → List Privilege → List Text
names_with k [] = []
names_with k (p ∷ ps) = if group_key p == k then p.name ∷ names_with k ps else names_with k ps

pub collect_groups-IsMap :
    (ps : List Privilege) (groups : GoMap GroupKey (List Text))
    → IsMap groups
    → IsMap (collect_groups ps groups)
unfolding collect_groups add_to_group
collect_groups-IsMap [] groups h = h
collect_groups-IsMap (p ∷ ps) groups h =
    collect_groups-IsMap ps (add_to_group p groups) (assign-IsMap _ _ groups h)

names-add_to_group :
    (p : Privilege) (groups : GoMap GroupKey (List Text)) (k : GroupKey)
    → names_of (lookup (add_to_group p groups) k) ≡ (
        if group_key p == k
        then names_of (lookup groups k) ++ p.name ∷ []
        else names_of (lookup groups k))
unfolding add_to_group
names-add_to_group p groups k = elim (Bool-cases (group_key p == k)) [
  | inl same ↦
      let e = (group_key_eq.beq_iff (group_key p) k).0 same in
      ground (
        arith,
        lookup-assign (group_key p) k (names_of (lookup groups (group_key p)) ++ p.name ∷ [])
            groups,
      )
  | inr apart ↦ ground (
    arith,
    lookup-assign (group_key p) k (names_of (lookup groups (group_key p)) ++ p.name ∷ []) groups,
  )
]

append_if :
    (b : Bool) (xs : List Text) (x : Text) (ys : List Text)
    → (if b then xs ++ x ∷ [] else xs) ++ ys ≡ xs ++ (if b then x ∷ ys else ys)
append_if true xs x ys = append_assoc xs (x ∷ []) ys
append_if false xs x ys = refl

names-collect_groups :
    (ps : List Privilege) (groups : GoMap GroupKey (List Text)) (k : GroupKey)
    → names_of (lookup (collect_groups ps groups) k) ≡ names_of (lookup groups k) ++ names_with k ps
unfolding collect_groups
names-collect_groups [] groups k = sym (append-nil _)
names-collect_groups (p ∷ ps) groups k =
    names-collect_groups ps (add_to_group p groups) k
    ∙ (ap (λ (t : List Text). t ++ names_with k ps) (names-add_to_group p groups k)
        ∙ append_if (group_key p == k) (names_of (lookup groups k)) p.name (names_with k ps))

-- The loop that collects the groups partitions the privileges: under each key it keeps the names of
-- the privileges with that key, in their order, and no key stands twice.
pub collect_groups_lem :
    (ps : List Privilege)
    → ((k : GroupKey) → names_of (lookup (collect_groups ps []) k) ≡ names_with k ps)
      × IsMap (collect_groups ps [])
unfolding lookup nodup
collect_groups_lem ps = (names-collect_groups ps [], collect_groups-IsMap ps [] refl)
