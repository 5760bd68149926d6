-- ===== src/Utils/Trimming/Laws.antt =====
-- TrimOuterDoubleQuotes of a text in double quotes.
use crossplane_provider_hana.Prelude.{
  true, [], ◌∷◌, ◌++◌, ◌≡◌, sym, ap, ◌∙◌, arith, length-append, if◌then◌else◌,
}
use crossplane_provider_hana.Text.{Text, trim_space, trim_left, is_space, reverse, drop, has_prefix}
use crossplane_provider_hana.Text.Laws.{reverse-append_one, reverse-reverse, has_suffix-append}
use crossplane_provider_hana.Utils.Trimming.{
  trim_outer_double_quotes, in_double_quotes, without_ends,
}

abbrev wrapped : Text → Text
wrapped t = 34 ∷ t ++ 34 ∷ []

wrapped_trimmed : (t : Text) → trim_space (wrapped t) ≡ wrapped t
unfolding trim_space trim_left is_space
wrapped_trimmed t =
    ap (λ (s : Text). reverse (trim_left s)) (reverse-append_one (34 ∷ t) 34)
    ∙ (ap reverse (sym (reverse-append_one (34 ∷ t) 34)) ∙ reverse-reverse (wrapped t))

wrapped_in_quotes : (t : Text) → in_double_quotes (wrapped t) ≡ true
unfolding in_double_quotes has_prefix
wrapped_in_quotes t =
    ground (arith, has_suffix-append (34 ∷ t) (34 ∷ []), length-append t (34 ∷ []))

wrapped_ends : (t : Text) → without_ends (wrapped t) ≡ t
unfolding without_ends drop
wrapped_ends t = ap (λ (s : Text). reverse (drop 1 s)) (reverse-append_one t 34) ∙ reverse-reverse t

trim_of_trimmed :
    (input s : Text)
    → trim_space input ≡ s
    → trim_outer_double_quotes input ≡ (if in_double_quotes s then without_ends s else s)
unfolding trim_outer_double_quotes
trim_of_trimmed input s h = ground (arith, h)

-- A text in double quotes loses the outer pair of them and nothing else, whatever stands between
-- them; the heuristics of the function decide nothing.
pub trim_outer_double_quotes_lem : (t : Text) → trim_outer_double_quotes (34 ∷ t ++ 34 ∷ []) ≡ t
trim_outer_double_quotes_lem t =
    trim_of_trimmed (wrapped t) (wrapped t) (wrapped_trimmed t)
    ∙ rw (wrapped_in_quotes t) (wrapped_ends t)
