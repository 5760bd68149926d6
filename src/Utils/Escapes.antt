-- ===== src/Utils/Escapes.antt =====
-- internal/utils/utils.go: ConvertBackslashEscapesToHanaEscapes and PreprocessPrivilegeStrings.
use crossplane_provider_hana.Prelude.{
  ℕ, zero, suc, ◌+◌, Option, none, some, List, [], ◌∷◌, ◌++◌, ◌==◌, if◌then◌else◌, length, map,
  ℕ_eq,
}
use crossplane_provider_hana.Text.{Text, lit, has_prefix, drop, replace_all}
use crossplane_provider_hana.Utils.Trimming.{trim_outer_double_quotes}

-- `([^"]+)""` after what has been read of the capture: a character that is no quote cannot end it,
-- so only the longest run of them is tried. The capture starts out empty, and may not stay so.
unfoldable pub doubly_closed : Text → Text → Option Text
unfolding has_prefix
doubly_closed seen [] = none
doubly_closed seen (c ∷ s) =
    let rest = doubly_closed (seen ++ c ∷ []) s in
    if c == 34
    then (elim seen [
      | [] ↦ none
      | d ∷ t ↦ if has_prefix (lit "\"\"") (c ∷ s) then some (d ∷ t) else none
    ])
    else rest

-- `""([^"]+)""` at the start of a text, with what it captures
unfoldable pub doubly_quoted : Text → Option Text
unfolding doubly_closed has_prefix drop
doubly_quoted s = if has_prefix (lit "\"\"") s then doubly_closed [] (drop 2 s) else none

-- doubleQuotePattern.ReplaceAllString(input, `"$1"`): `skip` counts the characters left of a match
-- that has been replaced.
unfoldable pub single_quotes_from : ℕ → Text → Text
unfolding doubly_quoted
single_quotes_from skip [] = []
single_quotes_from (suc skip) (c ∷ s) = single_quotes_from skip s
single_quotes_from zero (c ∷ s) = elim (doubly_quoted (c ∷ s)) [
  | none ↦ c ∷ single_quotes_from 0 s
  | some name ↦ lit "\"" ++ name ++ lit "\"" ++ single_quotes_from (length name + 3) s
]

unfoldable pub convert_backslash_escapes_to_hana_escapes : Text → Text
unfolding single_quotes_from replace_all
convert_backslash_escapes_to_hana_escapes input =
    replace_all (single_quotes_from 0 input) (lit "\\\"") (lit "\"")

unfoldable pub preprocess_privilege_strings : List Text → List Text
unfolding convert_backslash_escapes_to_hana_escapes trim_outer_double_quotes
preprocess_privilege_strings privilege_strings =
    map (λ priv_str. convert_backslash_escapes_to_hana_escapes (trim_outer_double_quotes priv_str))
      privilege_strings
