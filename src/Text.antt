-- ===== src/Text.antt =====
-- Go strings as lists of code points, and what the provider calls of package strings.
-- Letter case is that of ASCII, the alphabet of the SQL keywords that the provider folds.
pub mod Laws
use Prim.Native.Char.{code}
use Prim.Native.String
use crossplane_provider_hana.Prelude.{
  ℕ, zero, suc, ◌-◌, Bool, true, false, ◌&&◌, ◌||◌, Option, none, some, List, [], ◌∷◌, ◌++◌, map,
  String, Eq, list_eq, list_eq_sound, list_eq_self, ◌==◌, leb, if◌then◌else◌, length, ◌↔◌, ◌≡◌,
  ℕ_eq,
}

abbrev pub Text : Type 0
Text = List ℕ

-- A Go string literal.
abbrev pub lit : String → Text
lit String.[] = []
lit (String.◌∷◌ c s) = code c ∷ lit s

pub text_eq_iff : (a b : Text) → (list_eq a b ≡ true) ↔ (a ≡ b)
text_eq_iff a b = (list_eq_sound a b, λ e. rw e (list_eq_self b))

instance abbrev pub text_eq : Eq Text
text_eq = record { beq = list_eq; beq_iff = text_eq_iff }

unfoldable pub is_empty : Text → Bool
is_empty [] = true
is_empty (c ∷ s) = false

-- strings.HasPrefix, with the prefix first
unfoldable pub has_prefix : Text → Text → Bool
has_prefix [] s = true
has_prefix (c ∷ p) [] = false
has_prefix (c ∷ p) (d ∷ s) = c == d && has_prefix p s

unfoldable pub drop : ℕ → Text → Text
drop zero s = s
drop (suc n) [] = []
drop (suc n) (c ∷ s) = drop n s

unfoldable pub reverse_onto : Text → Text → Text
reverse_onto out [] = out
reverse_onto out (c ∷ s) = reverse_onto (c ∷ out) s

unfoldable pub reverse : Text → Text
unfolding reverse_onto
reverse s = reverse_onto [] s

-- strings.HasSuffix
unfoldable pub has_suffix : Text → Text → Bool
unfolding has_prefix reverse
has_suffix p s = has_prefix (reverse p) (reverse s)

-- strings.TrimPrefix
unfoldable pub trim_prefix : Text → Text → Text
unfolding has_prefix drop
trim_prefix p s = if has_prefix p s then drop (length p) s else s

-- strings.TrimSuffix
unfoldable pub trim_suffix : Text → Text → Text
unfolding has_suffix drop reverse
trim_suffix p s = if has_suffix p s then reverse (drop (length p) (reverse s)) else s

-- unicode.IsSpace on ASCII
unfoldable pub is_space : ℕ → Bool
is_space c = leb 9 c && leb c 13 || c == 32

unfoldable pub trim_left : Text → Text
unfolding is_space
trim_left [] = []
trim_left (c ∷ s) = let rest = trim_left s in if is_space c then rest else c ∷ s

-- strings.TrimSpace
unfoldable pub trim_space : Text → Text
unfolding trim_left reverse
trim_space s = reverse (trim_left (reverse (trim_left s)))

unfoldable pub upper_char : ℕ → ℕ
upper_char c = if leb 97 c && leb c 122 then c - 32 else c

-- strings.ToUpper
unfoldable pub to_upper : Text → Text
unfolding upper_char
to_upper s = map upper_char s

-- strings.ReplaceAll for a non-empty `old`: `skip` counts the characters left of a match that has
-- been replaced.
unfoldable pub replace_from : ℕ → Text → Text → Text → Text
unfolding has_prefix
replace_from skip old new [] = []
replace_from (suc skip) old new (c ∷ s) = replace_from skip old new s
replace_from zero old new (c ∷ s) =
    let hit = has_prefix old (c ∷ s) in
    let rest = replace_from (if hit then length old - 1 else 0) old new s in
    if hit then new ++ rest else c ∷ rest

unfoldable pub replace_all : Text → Text → Text → Text
unfolding replace_from
replace_all s old new = replace_from 0 old new s

-- strings.Index: what stands before the first match of a non-empty text, and what stands after it
unfoldable pub cut : Text → Text → Option (Text × Text)
unfolding has_prefix drop
cut sep [] = if is_empty sep then some ([], []) else none
cut sep (c ∷ s) =
    let rest = cut sep s in
    if has_prefix sep (c ∷ s)
    then some ([], drop (length sep) (c ∷ s))
    else elim rest [ none ↦ none | some (a, b) ↦ some (c ∷ a, b) ]

-- strings.Contains
unfoldable pub has_text : Text → Text → Bool
unfolding cut
has_text s sep = elim (cut sep s) [ none ↦ false | some _ ↦ true ]

-- strings.Join
unfoldable pub join : Text → List Text → Text
join sep [] = []
join sep (s ∷ []) = s
join sep (s ∷ t ∷ r) = s ++ sep ++ join sep (t ∷ r)
