-- ===== src/Utils/Arrays.antt =====
-- ArraysEqual and ArraysBothDiff, against the elements of the slices.
use crossplane_provider_hana.Prelude.{
  true, false, ◌&&◌, not, List, [], Eq, length, ◌≡◌, refl, ◌∙◌, arith, contains, Bool-cases, inl,
  inr, ap, ◌↔◌, sym, Bool_ext,
}
use crossplane_provider_hana.GoMap.{MapOrder, keys, IsMap, nodup}
use crossplane_provider_hana.GoMap.Laws.{lookup-some, length-keys}
use crossplane_provider_hana.GoMap.Sizes.{nodup-length, nodup_full}
use crossplane_provider_hana.Utils.{
  GoSet, unit_eq, map_diff, array_to_set, set_to_array, arrays_equal, arrays_both_diff,
}
use crossplane_provider_hana.Utils.Maps.{map_diff-IsMap, map_diff_empty, nil_of_length}
use crossplane_provider_hana.Utils.Sets.{
  array_to_set-IsMap, contains-array_to_set, lookup_unit, contains-map_diff, contains-set_to_array,
  nodup-set_to_array,
}

module _ {A : Type 0} ⦃e : Eq A⦄ where
  -- The sets have one size and the first has nothing that the second lacks.
  set_test :
      (o : MapOrder) (arr1 arr2 : List A)
      → arrays_equal o arr1 arr2 ≡ true
      → (length (array_to_set arr1) ≡ length (array_to_set arr2))
        × (map_diff o (array_to_set arr1) (array_to_set arr2) ≡ [])
  unfolding arrays_equal
  set_test o arr1 arr2 h = (ground arith, nil_of_length _ (ground arith))

  no_difference :
      (o : MapOrder) (set1 set2 : GoSet A)
      → IsMap set1
      → map_diff o set1 set2 ≡ []
      → (a : A) → contains (keys set1) a ≡ true
      → contains (keys set2) a ≡ true
  unfolding contains
  no_difference o set1 set2 h d a m =
      ground (arith, contains-map_diff o set1 set2 a h, ap (λ (s : GoSet A). contains (keys s) a) d)

  same_sets :
      (o : MapOrder) (arr1 arr2 : List A)
      → arrays_equal o arr1 arr2 ≡ true
      → (a : A) → contains (keys (array_to_set arr1)) a ≡ contains (keys (array_to_set arr2)) a
  same_sets o arr1 arr2 h a =
      let (size, diff) = set_test o arr1 arr2 h in
      let sub =
        no_difference o (array_to_set arr1) (array_to_set arr2) (array_to_set-IsMap arr1) diff in
      Bool_ext _ _ (sub a) (
        nodup_full (keys (array_to_set arr1)) (keys (array_to_set arr2)) (array_to_set-IsMap arr1)
          (length-keys (array_to_set arr1) ∙ (size ∙ sym (length-keys (array_to_set arr2)))) sub a)

  sets_of_same :
      (arr1 arr2 : List A)
      → ((a : A) → contains arr1 a ≡ contains arr2 a)
      → (a : A) → contains (keys (array_to_set arr1)) a ≡ contains (keys (array_to_set arr2)) a
  sets_of_same arr1 arr2 same a =
      contains-array_to_set arr1 a ∙ (same a ∙ sym (contains-array_to_set arr2 a))

  size_of_same :
      (arr1 arr2 : List A)
      → ((a : A) → contains arr1 a ≡ contains arr2 a)
      → length (array_to_set arr1) ≡ length (array_to_set arr2)
  size_of_same arr1 arr2 same = omega (
    arith,
    length-keys (array_to_set arr1),
    length-keys (array_to_set arr2),
    nodup-length (keys (array_to_set arr1)) (keys (array_to_set arr2)) (array_to_set-IsMap arr1)
        (λ a m. sym (sets_of_same arr1 arr2 same a) ∙ m),
    nodup-length (keys (array_to_set arr2)) (keys (array_to_set arr1)) (array_to_set-IsMap arr2)
        (λ a m. sets_of_same arr1 arr2 same a ∙ m),
  )

  diff_of_same :
      (o : MapOrder) (arr1 arr2 : List A)
      → ((a : A) → contains arr1 a ≡ contains arr2 a)
      → map_diff o (array_to_set arr1) (array_to_set arr2) ≡ []
  diff_of_same o arr1 arr2 same =
      (map_diff_empty o (array_to_set arr1) (array_to_set arr2) (array_to_set-IsMap arr1)).1
        λ a x p.
          lookup_unit (array_to_set arr2) a
            (sym (sets_of_same arr1 arr2 same a) ∙ lookup-some (array_to_set arr1) a p)

  equal_of_same :
      (o : MapOrder) (arr1 arr2 : List A)
      → ((a : A) → contains arr1 a ≡ contains arr2 a)
      → arrays_equal o arr1 arr2 ≡ true
  unfolding arrays_equal
  equal_of_same o arr1 arr2 same =
      ground (arith, diff_of_same o arr1 arr2 same, size_of_same arr1 arr2 same)

  -- ArraysEqual holds exactly when the two slices hold the same elements, however often and in
  -- whatever order.
  pub arrays_equal_iff :
      (o : MapOrder) (arr1 arr2 : List A)
      → (arrays_equal o arr1 arr2 ≡ true) ↔ ((a : A) → contains arr1 a ≡ contains arr2 a)
  arrays_equal_iff o arr1 arr2 = (
    λ h a.
        sym (contains-array_to_set arr1 a)
        ∙ (same_sets o arr1 arr2 h a ∙ contains-array_to_set arr2 a),
    equal_of_same o arr1 arr2,
  )

  pub both_diff-equal :
      (o : MapOrder) (arr1 arr2 : List A)
      → (arrays_both_diff o arr1 arr2).0 ≡ arrays_equal o arr1 arr2
  unfolding arrays_both_diff arrays_equal
  both_diff-equal o arr1 arr2 = ground arith

  left_diff :
      (o : MapOrder) (arr1 arr2 : List A)
      → arrays_equal o arr1 arr2 ≡ false
      → (arrays_both_diff o arr1 arr2).1
        ≡ set_to_array o (map_diff o (array_to_set arr1) (array_to_set arr2))
  unfolding arrays_both_diff arrays_equal
  left_diff o arr1 arr2 h = ground arith

  right_diff :
      (o : MapOrder) (arr1 arr2 : List A)
      → arrays_equal o arr1 arr2 ≡ false
      → (arrays_both_diff o arr1 arr2).2
        ≡ set_to_array o (map_diff o (array_to_set arr2) (array_to_set arr1))
  unfolding arrays_both_diff arrays_equal
  right_diff o arr1 arr2 h = ground arith

  no_diffs :
      (o : MapOrder) (arr1 arr2 : List A)
      → arrays_equal o arr1 arr2 ≡ true
      → ((arrays_both_diff o arr1 arr2).1 ≡ []) × ((arrays_both_diff o arr1 arr2).2 ≡ [])
  unfolding arrays_both_diff arrays_equal
  no_diffs o arr1 arr2 h = ground arith

  contains-set_diff :
      (o : MapOrder) (arr1 arr2 : List A) (a : A)
      → contains (set_to_array o (map_diff o (array_to_set arr1) (array_to_set arr2))) a
        ≡ (contains arr1 a && not (contains arr2 a))
  contains-set_diff o arr1 arr2 a =
      contains-set_to_array o (map_diff o (array_to_set arr1) (array_to_set arr2)) a
      ∙ rw (
        contains-map_diff o (array_to_set arr1) (array_to_set arr2) a (array_to_set-IsMap arr1),
        contains-array_to_set arr1 a,
        contains-array_to_set arr2 a,
      )

  -- What ArraysBothDiff returns: the elements that only the first slice has, and those that only the
  -- second has, each once.
  pub record IsBothDiff (arr1 arr2 only1 only2 : List A) : Type 0 where
    pub first : (a : A) → contains only1 a ≡ (contains arr1 a && not (contains arr2 a))
    pub second : (a : A) → contains only2 a ≡ (contains arr2 a && not (contains arr1 a))
    pub first_once : nodup only1 ≡ true
    pub second_once : nodup only2 ≡ true

  -- ArraysBothDiff, whether or not it reports equality, returns the two set differences without
  -- repetitions.
  pub arrays_both_diff-IsBothDiff :
      (o : MapOrder) (arr1 arr2 : List A)
      → IsBothDiff arr1 arr2 (arrays_both_diff o arr1 arr2).1 (arrays_both_diff o arr1 arr2).2
  unfolding contains nodup
  arrays_both_diff-IsBothDiff o arr1 arr2 = elim (Bool-cases (arrays_equal o arr1 arr2)) [
    | inl same ↦
        let agree = (arrays_equal_iff o arr1 arr2).0 same in
        let (none1, none2) = no_diffs o arr1 arr2 same in
        rw (none1, none2)
          (record {
            first = λ a. ground (arith, agree a);
            second = λ a. ground (arith, agree a);
            first_once = refl;
            second_once = refl;
          })
    | inr apart ↦
        rw (left_diff o arr1 arr2 apart, right_diff o arr1 arr2 apart)
          (record {
            first = contains-set_diff o arr1 arr2;
            second = contains-set_diff o arr2 arr1;
            first_once = nodup-set_to_array o _ (map_diff-IsMap o _ _);
            second_once = nodup-set_to_array o _ (map_diff-IsMap o _ _);
          })
  ]
