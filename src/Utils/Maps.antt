-- ===== src/Utils/Maps.antt =====
-- What the differences of two maps hold.
use crossplane_provider_hana.Prelude.{
  true, Option, none, some, List, [], ◌∷◌, Eq, ◌==◌, if◌then◌else◌, length, ◌≡◌, refl, ◌∙◌, arith,
  contains, Bool-cases, Option-cases, inl, inr, ap, ◌↔◌, sym, beq_self,
}
use crossplane_provider_hana.GoMap.{GoMap, MapOrder, keys, lookup, IsMap, nodup}
use crossplane_provider_hana.GoMap.Laws.{
  lookup-assign, assign-IsMap, lookup-range, range-IsMap, lookup-none, lookup-some,
  eq_nil_of_lookup, lookup_of_key, length-keys,
}
use crossplane_provider_hana.GoMap.Sizes.{nodup-length, nodup_full}
use crossplane_provider_hana.Utils.{
  differs, collect_diff, map_diff, map_diff_only_desired, maps_both_diff,
}

pub nil_of_length : {A : Type 0} (xs : List A) → length xs ≡ 0 → xs ≡ []
nil_of_length [] h = refl
nil_of_length (x ∷ xs) h = absurd (omega arith)

module _ {V : Type 0} where
  abbrev or_else : Option V → Option V → Option V
  or_else none acc = acc
  or_else (some x) acc = some x

  or_none : (x : Option V) → or_else x none ≡ x
  or_none none = refl
  or_none (some x) = refl

module _ {V : Type 0} ⦃v : Eq V⦄ where
  -- What a difference reads at a key, from what the two maps read there.
  abbrev pub only_in_first : Option V → Option V → Option V
  only_in_first none there = none
  only_in_first (some x) there = if differs there x then some x else none

  there : (x : V) (y : Option V) → only_in_first (some x) y ≡ none → y ≡ some x
  unfolding differs
  there x none h = ground arith
  there x (some y) h = ap some (sym ((v.beq_iff x y).0 (ground arith)))

  only_in_first_iff :
      (x y : Option V) (z : V) → (only_in_first x y ≡ some z) ↔ ((x ≡ some z) × (¬ (y ≡ some z)))
  unfolding differs
  only_in_first_iff none y z = (λ h. cc, λ h. absurd (cc (h.0)))
  only_in_first_iff (some x) none z = (λ h. (h, λ e. cc), λ h. h.0)
  only_in_first_iff (some x) (some y) z = elim (Bool-cases (x == y)) [
    | inl same ↦
        let e : some y ≡ some x = ap some (sym ((v.beq_iff x y).0 same)) in
        (λ h. absurd (ground arith), λ h. absurd (h.1 (e ∙ h.0)))
    | inr apart ↦
        (λ h. (ground arith, λ k. ground (arith, (v.beq_iff x y).1, k)), λ h. rw apart (h.0))
  ]

  nothing : (x y : Option V) → ((z : V) → x ≡ some z → y ≡ some z) → only_in_first x y ≡ none
  unfolding differs
  nothing none y h = refl
  nothing (some x) y h = rw (h x refl) (rw (beq_self x) refl)

module _ {K V : Type 0} ⦃k : Eq K⦄ ⦃v : Eq V⦄ where
  collect_diff-IsMap :
      (other : GoMap K V) (entries acc : GoMap K V)
      → IsMap acc
      → IsMap (collect_diff other entries acc)
  unfolding collect_diff
  collect_diff-IsMap other [] acc h = h
  collect_diff-IsMap other ((key, x) ∷ entries) acc h =
      elim (Bool-cases (differs (lookup other key) x)) [
        | inl new ↦ rw new (collect_diff-IsMap other entries _ (assign-IsMap key x acc h))
        | inr old ↦ rw old (collect_diff-IsMap other entries acc h)
      ]

  lookup-collect_diff :
      (other entries acc : GoMap K V) (j : K)
      → IsMap entries
      → lookup (collect_diff other entries acc) j
        ≡ or_else (only_in_first (lookup entries j) (lookup other j)) (lookup acc j)
  unfolding collect_diff lookup nodup
  lookup-collect_diff other [] acc j h = refl
  lookup-collect_diff other ((key, x) ∷ entries) acc j h = elim (Bool-cases (key == j)) [
    | inl same ↦ rw (lookup-collect_diff other entries _ j (ground arith)) (
        ground
          (arith, lookup-assign key j x acc, lookup-none entries key, (k.beq_iff key j).0 same))
    | inr apart ↦
        rw (lookup-collect_diff other entries _ j (ground arith))
          (ground (arith, lookup-assign key j x acc))
  ]

  pub map_diff_reads :
      (o : MapOrder) (map1 map2 : GoMap K V) (j : K)
      → IsMap map1
      → lookup (map_diff o map1 map2) j ≡ only_in_first (lookup map1 j) (lookup map2 j)
  unfolding map_diff lookup
  map_diff_reads o map1 map2 j h =
      lookup-collect_diff map2 (o.range (K × V) map1) [] j (range-IsMap o map1 h)
      ∙ rw (lookup-range o map1 h j) (or_none _)

  -- A key reads as a value in a difference of maps exactly when it reads as that value in the first
  -- map, and does not in the second.
  pub lookup-map_diff :
      (o : MapOrder) (map1 map2 : GoMap K V) (j : K) (x : V)
      → IsMap map1
      → (lookup (map_diff o map1 map2) j ≡ some x)
        ↔ ((lookup map1 j ≡ some x) × (¬ (lookup map2 j ≡ some x)))
  lookup-map_diff o map1 map2 j x h =
      rw (map_diff_reads o map1 map2 j h) (only_in_first_iff (lookup map1 j) (lookup map2 j) x)

  pub map_diff-IsMap : (o : MapOrder) (map1 map2 : GoMap K V) → IsMap (map_diff o map1 map2)
  unfolding map_diff nodup
  map_diff-IsMap o map1 map2 = collect_diff-IsMap map2 (o.range (K × V) map1) [] refl

  pub map_diff_only_desired-eq_map_diff :
      (o : MapOrder) (observed desired : GoMap K V)
      → map_diff_only_desired o observed desired ≡ map_diff o desired observed
  unfolding map_diff map_diff_only_desired
  map_diff_only_desired-eq_map_diff o observed desired = refl

  -- There is no difference exactly when each entry of the first map is an entry of the second.
  pub map_diff_empty :
      (o : MapOrder) (map1 map2 : GoMap K V)
      → IsMap map1
      → (map_diff o map1 map2 ≡ [])
        ↔ ((j : K) (x : V) → lookup map1 j ≡ some x → lookup map2 j ≡ some x)
  unfolding lookup
  map_diff_empty o map1 map2 h = (
    λ e j x p. there x _ (
        ap (λ (y : Option V). only_in_first y (lookup map2 j)) (sym p)
        ∙ (sym (map_diff_reads o map1 map2 j h) ∙ ap (λ (m : GoMap K V). lookup m j) e)),
    λ all.
        eq_nil_of_lookup (map_diff o map1 map2)
          λ j. map_diff_reads o map1 map2 j h ∙ nothing (lookup map1 j) (lookup map2 j) (all j),
  )

  -- MapDiffOnlyDesired finds nothing to update exactly when every desired entry is observed.
  pub map_diff_only_desired_empty :
      (o : MapOrder) (observed desired : GoMap K V)
      → IsMap desired
      → (map_diff_only_desired o observed desired ≡ [])
        ↔ ((j : K) (x : V) → lookup desired j ≡ some x → lookup observed j ≡ some x)
  map_diff_only_desired_empty o observed desired h =
      rw (map_diff_only_desired-eq_map_diff o observed desired)
        (map_diff_empty o desired observed h)

  pub same_keys :
      (map1 map2 : GoMap K V)
      → IsMap map1
      → length map1 ≡ length map2
      → ((j : K) (x : V) → lookup map1 j ≡ some x → lookup map2 j ≡ some x)
      → (j : K) → lookup map1 j ≡ lookup map2 j
  same_keys map1 map2 h n sub j = elim (Bool-cases (contains (keys map2) j)) [
    | inl there ↦
        let (x, p) = lookup_of_key map1 j (
          nodup_full (keys map1) (keys map2) h (length-keys map1 ∙ (n ∙ sym (length-keys map2)))
            (λ i m. let (y, q) = lookup_of_key map1 i m in lookup-some map2 i (sub i y q)) j
            there) in
        p ∙ sym (sub j x p)
    | inr missing ↦ elim (Option-cases (lookup map1 j)) [
      | inl e ↦ e ∙ sym (lookup-none map2 j missing)
      | inr (x, p) ↦ p ∙ sym (sub j x p)
    ]
  ]

  key_of :
      (map1 map2 : GoMap K V)
      → ((j : K) → lookup map1 j ≡ lookup map2 j)
      → (j : K) → contains (keys map1) j ≡ true
      → contains (keys map2) j ≡ true
  key_of map1 map2 same j m =
      let (x, p) = lookup_of_key map1 j m in lookup-some map2 j (sym (same j) ∙ p)

  pub equal_length :
      (map1 map2 : GoMap K V)
      → IsMap map1
      → IsMap map2
      → ((j : K) → lookup map1 j ≡ lookup map2 j)
      → length map1 ≡ length map2
  equal_length map1 map2 h1 h2 same = omega (
    arith,
    length-keys map1,
    length-keys map2,
    nodup-length (keys map1) (keys map2) h1 (key_of map1 map2 same),
    nodup-length (keys map2) (keys map1) h2 (key_of map2 map1 (λ j. sym (same j))),
  )

  -- MapsBothDiff reports two maps as equal exactly when every key reads the same in both.
  pub maps_both_diff_equal :
      (o : MapOrder) (map1 map2 : GoMap K V)
      → IsMap map1
      → IsMap map2
      → ((maps_both_diff o map1 map2).0 ≡ true) ↔ ((j : K) → lookup map1 j ≡ lookup map2 j)
  unfolding maps_both_diff
  maps_both_diff_equal o map1 map2 h1 h2 = (
    λ e.
        same_keys map1 map2 h1 (ground arith)
          ((map_diff_empty o map1 map2 h1).0 (nil_of_length _ (ground arith))),
    λ same.
        rw
          (
            (map_diff_empty o map1 map2 h1).1 (λ j x p. sym (same j) ∙ p),
            equal_length map1 map2 h1 h2 same,
          )
          (ground arith),
  )

  -- Whatever the maps, MapsBothDiff hands back no entry to set and no entry to clear.
  pub maps_both_diff_nothing :
      (o : MapOrder) (map1 map2 : GoMap K V)
      → IsMap map1
      → IsMap map2
      → ((maps_both_diff o map1 map2).1 ≡ []) × ((maps_both_diff o map1 map2).2 ≡ [])
  unfolding maps_both_diff
  maps_both_diff_nothing o map1 map2 h1 h2 = elim (Bool-cases (maps_both_diff o map1 map2).0) [
    | inl e ↦
        let same = (maps_both_diff_equal o map1 map2 h1 h2).0 e in
        let left = (map_diff_empty o map1 map2 h1).1 (λ j x p. sym (same j) ∙ p) in
        let right = (map_diff_empty o map2 map1 h2).1 (λ j x p. same j ∙ p) in
        ground (arith, left, right)
    | inr e ↦ ground arith
  ]
