-- ===== src/Utils/Trimming.antt =====
-- internal/utils/utils.go: TrimOuterDoubleQuotes.
pub mod Laws
use crossplane_provider_hana.Prelude.{
  ℕ, ◌+◌, Bool, true, false, ◌&&◌, ◌||◌, not, List, [], ◌∷◌, ◌==◌, if◌then◌else◌, length, leb,
  nat_eq, ℕ_eq,
}
use crossplane_provider_hana.Text.{Text, lit, has_prefix, has_suffix, drop, reverse, trim_space}

-- strings.Count(s, `"`)
unfoldable pub count_quotes : Text → ℕ
count_quotes [] = 0
count_quotes (c ∷ s) = let rest = count_quotes s in if c == 34 then 1 + rest else rest

-- input[1:len(input)-1]
unfoldable pub without_ends : Text → Text
unfolding drop reverse
without_ends input = reverse (drop 1 (reverse (drop 1 input)))

-- At least two characters, the first and the last of them a quote.
unfoldable pub in_double_quotes : Text → Bool
unfolding has_prefix has_suffix
in_double_quotes input =
    leb 2 (length input) && has_prefix (lit "\"") input && has_suffix (lit "\"") input

abbrev trim_trimmed : Text → Text
trim_trimmed input =
    if not (in_double_quotes input)
    then input
    else if nat_eq (length input) 2
    then without_ends input
    else if in_double_quotes (without_ends input)
    then (if nat_eq (count_quotes (without_ends input)) 2
        then without_ends input
        else without_ends input)
    else without_ends input

unfoldable pub trim_outer_double_quotes : Text → Text
unfolding trim_space in_double_quotes without_ends count_quotes
trim_outer_double_quotes input = trim_trimmed (trim_space input)
