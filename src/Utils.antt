-- ===== src/Utils.antt =====
-- internal/utils/utils.go: set and map differences, and the escaping of quotes.
pub mod Maps
pub mod Sets
pub mod Arrays
pub mod Trimming
pub mod Escapes
use crossplane_provider_hana.Prelude.{
  ℕ, Bool, true, false, ◌&&◌, ◌||◌, not, Option, none, some, List, [], ◌∷◌, map, Eq, ◌==◌,
  if◌then◌else◌, length, ◌≡◌, refl, ◌↔◌, nat_eq,
}
use crossplane_provider_hana.Text.{Text, lit, replace_all, to_upper}
use crossplane_provider_hana.GoMap.{GoMap, MapOrder, keys, lookup, assign}

-- map[A]struct{}
abbrev pub GoSet : Type 0 → Type 0
GoSet A = GoMap A (Unit {0})

pub unit_beq_iff : (a b : Unit {0}) → (true ≡ true) ↔ (a ≡ b)
unit_beq_iff a b = (λ _. refl, λ _. refl)

-- struct{} has one value.
instance abbrev pub unit_eq : Eq (Unit {0})
unit_eq = record { beq = λ _ _. true; beq_iff = unit_beq_iff }

unfoldable pub escape_single_quotes : Text → Text
escape_single_quotes input = replace_all input (lit "'") (lit "''")

unfoldable pub escape_double_quotes : Text → Text
escape_double_quotes input = replace_all input (lit "\"") (lit "\"\"")

unfoldable pub array_to_upper : List Text → List Text
array_to_upper arr = map to_upper arr

-- `!ok || val1 != val2`
unfoldable pub differs : {V : Type 0} ⦃v : Eq V⦄ → Option V → V → Bool
differs none val1 = true
differs (some val2) val1 = not (val1 == val2)

module _ {K V : Type 0} ⦃k : Eq K⦄ ⦃v : Eq V⦄ where
  -- the loop that MapDiff and MapDiffOnlyDesired have, over the entries in the order of `range`
  unfoldable pub collect_diff : GoMap K V → List (K × V) → GoMap K V → GoMap K V
  unfolding differs lookup assign
  collect_diff other [] difference = difference
  collect_diff other ((key, val1) ∷ entries) difference =
      collect_diff other entries
        (if differs (lookup other key) val1 then assign key val1 difference else difference)

  unfoldable pub map_diff : MapOrder → GoMap K V → GoMap K V → GoMap K V
  unfolding collect_diff
  map_diff o map1 map2 = collect_diff map2 (o.range (K × V) map1) []

  unfoldable pub map_diff_only_desired : MapOrder → GoMap K V → GoMap K V → GoMap K V
  unfolding collect_diff
  map_diff_only_desired o observed desired = collect_diff observed (o.range (K × V) desired) []

  -- The two differences come back empty (nil) where the maps differ.
  unfoldable pub maps_both_diff : MapOrder → GoMap K V → GoMap K V → Bool × GoMap K V × GoMap K V
  unfolding map_diff
  maps_both_diff o map1 map2 =
      let left_difference = map_diff o map1 map2 in
      if not (nat_eq (length left_difference) 0) || not (nat_eq (length map1) (length map2))
      then (false, [], [])
      else (true, left_difference, map_diff o map2 map1)

module _ {A : Type 0} ⦃e : Eq A⦄ where
  unfoldable pub add_all : GoSet A → List A → GoSet A
  unfolding assign
  add_all set [] = set
  add_all set (item ∷ arr) = add_all (assign item tt set) arr

  unfoldable pub array_to_set : List A → GoSet A
  unfolding add_all
  array_to_set arr = add_all [] arr

  unfoldable pub set_to_array : MapOrder → GoSet A → List A
  set_to_array o set = keys (o.range (A × Unit {0}) set)

  -- The last part is the left difference, or nothing where the lengths differ.
  unfoldable pub arrays_equal_with_difference :
      MapOrder → List A → List A → Bool × GoSet A × GoSet A × Option (GoSet A)
  unfolding array_to_set map_diff
  arrays_equal_with_difference o arr1 arr2 =
      let set1 = array_to_set arr1 in
      let set2 = array_to_set arr2 in
      let left_difference = map_diff o set1 set2 in
      if not (nat_eq (length set1) (length set2))
      then (false, set1, set2, none)
      else if not (nat_eq (length left_difference) 0)
      then (false, set1, set2, some left_difference)
      else (true, set1, set2, none)

  unfoldable pub arrays_equal : MapOrder → List A → List A → Bool
  unfolding arrays_equal_with_difference
  arrays_equal o arr1 arr2 = (arrays_equal_with_difference o arr1 arr2).0

  unfoldable pub or_map_diff : MapOrder → GoSet A → GoSet A → Option (GoSet A) → GoSet A
  unfolding map_diff
  or_map_diff o set1 set2 none = map_diff o set1 set2
  or_map_diff o set1 set2 (some left_difference) = left_difference

  unfoldable pub arrays_both_diff : MapOrder → List A → List A → Bool × List A × List A
  unfolding arrays_equal_with_difference or_map_diff set_to_array map_diff
  arrays_both_diff o arr1 arr2 =
      let (is_equal, set1, set2, left_difference) = arrays_equal_with_difference o arr1 arr2 in
      if is_equal then (true, [], []) else (
        false,
        set_to_array o (or_map_diff o set1 set2 left_difference),
        set_to_array o (map_diff o set2 set1),
      )
