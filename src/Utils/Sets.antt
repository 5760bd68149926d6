-- ===== src/Utils/Sets.antt =====
-- Sets as maps: arrayToSet, setToArray, and the difference of two sets.
use crossplane_provider_hana.Prelude.{
  true, false, ◌&&◌, ◌||◌, not, none, some, List, [], ◌∷◌, Eq, ◌≡◌, refl, ◌∙◌, arith, contains,
  Bool-cases, inl, inr,
}
use crossplane_provider_hana.GoMap.{MapOrder, keys, lookup, assign, IsMap, nodup}
use crossplane_provider_hana.GoMap.Laws.{
  contains-assign, assign-IsMap, range-IsMap, lookup-none, lookup_of_key, contains-perm,
}
use crossplane_provider_hana.Utils.{
  GoSet, unit_eq, differs, map_diff, add_all, array_to_set, set_to_array,
}
use crossplane_provider_hana.Utils.Maps.{map_diff_reads}

module _ {A : Type 0} ⦃e : Eq A⦄ where
  add_all-IsMap : (set : GoSet A) (arr : List A) → IsMap set → IsMap (add_all set arr)
  unfolding add_all
  add_all-IsMap set [] h = h
  add_all-IsMap set (x ∷ arr) h = add_all-IsMap (assign x tt set) arr (assign-IsMap x tt set h)

  contains-add_all :
      (set : GoSet A) (arr : List A) (a : A)
      → contains (keys (add_all set arr)) a ≡ (contains (keys set) a || contains arr a)
  unfolding add_all contains
  contains-add_all set [] a = ground arith
  contains-add_all set (x ∷ arr) a =
      ground (arith, contains-add_all (assign x tt set) arr a, contains-assign x a tt set)

  pub array_to_set-IsMap : (arr : List A) → IsMap (array_to_set arr)
  unfolding array_to_set nodup
  array_to_set-IsMap arr = add_all-IsMap [] arr refl

  pub contains-array_to_set :
      (arr : List A) (a : A) → contains (keys (array_to_set arr)) a ≡ contains arr a
  unfolding array_to_set contains
  contains-array_to_set arr a = contains-add_all [] arr a

  pub lookup_unit : (set : GoSet A) (a : A) → contains (keys set) a ≡ true → lookup set a ≡ some tt
  lookup_unit set a h = (lookup_of_key set a h).1

  contains_iff_lookup :
      (set : GoSet A) (a : A)
      → contains (keys set) a ≡ (elim (lookup set a) [ none ↦ false | some _ ↦ true ])
  contains_iff_lookup set a = elim (Bool-cases (contains (keys set) a)) [
    | inl h ↦ h ∙ rw (lookup_unit set a h)
    | inr h ↦ h ∙ rw (lookup-none set a h)
  ]

  pub contains-map_diff :
      (o : MapOrder) (set1 set2 : GoSet A) (a : A)
      → IsMap set1
      → contains (keys (map_diff o set1 set2)) a
        ≡ (contains (keys set1) a && not (contains (keys set2) a))
  unfolding differs
  contains-map_diff o set1 set2 a h =
      rw
        (
          contains_iff_lookup (map_diff o set1 set2) a,
          contains_iff_lookup set1 a,
          contains_iff_lookup set2 a,
          map_diff_reads o set1 set2 a h,
        )
        (ground arith)

  pub contains-set_to_array :
      (o : MapOrder) (set : GoSet A) (a : A)
      → contains (set_to_array o set) a ≡ contains (keys set) a
  unfolding set_to_array
  contains-set_to_array o set a = contains-perm (o.range_perm (A × Unit {0}) set) a

  pub nodup-set_to_array :
      (o : MapOrder) (set : GoSet A) → IsMap set → nodup (set_to_array o set) ≡ true
  unfolding set_to_array
  nodup-set_to_array o set h = range-IsMap o set h
