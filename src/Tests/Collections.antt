-- ===== src/Tests/Collections.antt =====
-- The theorems on sets and maps, applied to small slices and maps.
use crossplane_provider_hana.Prelude.{◌≡◌, refl, true, some, List, [], ◌∷◌, contains, ◌↔◌, list_eq}
use crossplane_provider_hana.Text.{Text, lit, text_eq}
use crossplane_provider_hana.GoMap.{GoMap, lookup, nodup}
use crossplane_provider_hana.Utils.{
  arrays_equal, arrays_both_diff, map_diff, map_diff_only_desired, maps_both_diff, unit_eq,
}
use crossplane_provider_hana.Utils.Arrays.{
  IsBothDiff, arrays_equal_iff, arrays_both_diff-IsBothDiff,
}
use crossplane_provider_hana.Utils.Maps.{
  lookup-map_diff, maps_both_diff_equal, maps_both_diff_nothing, map_diff_only_desired_empty,
}
use crossplane_provider_hana.Tests.Data.{in_order}

abbrev left : List Text
left = lit "a" ∷ lit "b" ∷ lit "a" ∷ []

abbrev right : List Text
right = lit "b" ∷ lit "c" ∷ []

abbrev limits : GoMap Text Text
limits = (lit "CLIENT", lit "100") ∷ (lit "LOCALE", lit "de") ∷ []

abbrev other_limits : GoMap Text Text
other_limits = (lit "CLIENT", lit "200") ∷ []

arrays_equal_iff_example :
    (arrays_equal in_order left right ≡ true) ↔ ((a : Text) → contains left a ≡ contains right a)
arrays_equal_iff_example = arrays_equal_iff in_order left right

arrays_both_diff-IsBothDiff_example :
    IsBothDiff left right
      (arrays_both_diff in_order left right).1
      (arrays_both_diff in_order left right).2
arrays_both_diff-IsBothDiff_example = arrays_both_diff-IsBothDiff in_order left right

lookup-map_diff_example :
    (lookup (map_diff in_order limits other_limits) (lit "CLIENT") ≡ some (lit "100")) ↔ (
      (lookup limits (lit "CLIENT") ≡ some (lit "100"))
      × (¬ (lookup other_limits (lit "CLIENT") ≡ some (lit "100"))))
unfolding nodup list_eq
lookup-map_diff_example =
    lookup-map_diff in_order limits other_limits (lit "CLIENT") (lit "100") refl

maps_both_diff_equal_example :
    ((maps_both_diff in_order limits other_limits).0 ≡ true)
    ↔ ((j : Text) → lookup limits j ≡ lookup other_limits j)
unfolding nodup list_eq
maps_both_diff_equal_example = maps_both_diff_equal in_order limits other_limits refl refl

maps_both_diff_nothing_example :
    ((maps_both_diff in_order limits other_limits).1 ≡ [])
    × ((maps_both_diff in_order limits other_limits).2 ≡ [])
unfolding nodup list_eq
maps_both_diff_nothing_example = maps_both_diff_nothing in_order limits other_limits refl refl

map_diff_only_desired_empty_example :
    (map_diff_only_desired in_order limits other_limits ≡ [])
    ↔ ((j x : Text) → lookup other_limits j ≡ some x → lookup limits j ≡ some x)
unfolding nodup
map_diff_only_desired_empty_example = map_diff_only_desired_empty in_order limits other_limits refl
