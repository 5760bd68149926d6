-- ===== src/Text/Laws.antt =====
-- Laws of the text operations that the components build on.
use crossplane_provider_hana.Prelude.{
  ℕ, ℕ_eq, true, [], ◌∷◌, ◌++◌, ◌≡◌, refl, ap, arith, append_assoc, ◌∙◌, sym, if◌then◌else◌, ◌==◌,
  Bool-cases, inl, inr, length, ◌+◌, beq_self, nat_eq_iff,
}
use crossplane_provider_hana.Text.{
  Text, has_prefix, drop, reverse_onto, reverse, has_suffix, trim_suffix, replace_all,
}
use mathlib.Core.Path.{ap₂}

pub reverse_onto-append :
    (out s t : Text) → reverse_onto out (s ++ t) ≡ reverse_onto (reverse_onto out s) t
unfolding reverse_onto
reverse_onto-append out [] t = refl
reverse_onto-append out (c ∷ s) t = reverse_onto-append (c ∷ out) s t

pub reverse-append_one : (s : Text) (c : ℕ) → reverse (s ++ c ∷ []) ≡ c ∷ reverse s
unfolding reverse reverse_onto
reverse-append_one s c = reverse_onto-append [] s (c ∷ [])

pub reverse_onto-eq : (out s : Text) → reverse_onto out s ≡ reverse s ++ out
unfolding reverse reverse_onto
reverse_onto-eq out [] = refl
reverse_onto-eq out (c ∷ s) =
    reverse_onto-eq (c ∷ out) s
    ∙ (sym (append_assoc (reverse s) (c ∷ []) out)
        ∙ ap (λ (t : Text). t ++ out) (sym (reverse_onto-eq (c ∷ []) s)))

-- Doubling one character, the escape of a quote in SQL.
unfoldable pub double_char : ℕ → Text → Text
double_char q [] = []
double_char q (c ∷ s) = let rest = double_char q s in if q == c then q ∷ q ∷ rest else c ∷ rest

pub replace_all-double_char :
    (q : ℕ) (s : Text) → replace_all s (q ∷ []) (q ∷ q ∷ []) ≡ double_char q s
unfolding replace_all double_char
replace_all-double_char q [] = refl
replace_all-double_char q (c ∷ s) = elim (Bool-cases (q == c)) [
  | inl same ↦ rw same (ap (λ (t : Text). q ∷ q ∷ t) (replace_all-double_char q s))
  | inr other ↦ rw other (ap (λ (t : Text). c ∷ t) (replace_all-double_char q s))
]

-- Halving the doubled character gives the text back.
pub replace_all_halves :
    (q : ℕ) (s : Text) → replace_all (double_char q s) (q ∷ q ∷ []) (q ∷ []) ≡ s
unfolding replace_all double_char
replace_all_halves q [] = refl
replace_all_halves q (c ∷ s) = elim (Bool-cases (q == c)) [
  | inl same ↦
      rw (same, beq_self q)
        (ap₂ (λ (d : ℕ) (t : Text). d ∷ t) ((nat_eq_iff q c).0 same) (replace_all_halves q s))
  | inr other ↦ rw (other, other) (ap (λ (t : Text). c ∷ t) (replace_all_halves q s))
]

pub double_char-append :
    (q : ℕ) (s t : Text) → double_char q (s ++ t) ≡ double_char q s ++ double_char q t
unfolding double_char
double_char-append q [] t = refl
double_char-append q (c ∷ s) t = ground (arith, double_char-append q s t)

-- A text that has its prefix is the prefix and a rest.
pub has_prefix-append : (p s : Text) → has_prefix p (p ++ s) ≡ true
unfolding has_prefix
has_prefix-append [] s = refl
has_prefix-append (c ∷ p) s = ground (arith, beq_self c, has_prefix-append p s)

pub drop-append : (p s : Text) → drop (length p) (p ++ s) ≡ s
unfolding drop
drop-append [] s = refl
drop-append (c ∷ p) s = drop-append p s

pub reverse-reverse_onto : (out s : Text) → reverse (reverse_onto out s) ≡ reverse_onto s out
unfolding reverse reverse_onto
reverse-reverse_onto out [] = refl
reverse-reverse_onto out (c ∷ s) = reverse-reverse_onto (c ∷ out) s

pub reverse-reverse : (s : Text) → reverse (reverse s) ≡ s
unfolding reverse reverse_onto
reverse-reverse s = reverse-reverse_onto [] s

pub reverse-append : (s t : Text) → reverse (s ++ t) ≡ reverse t ++ reverse s
unfolding reverse
reverse-append s t = reverse_onto-append [] s t ∙ reverse_onto-eq (reverse s) t

length-reverse_onto : (out s : Text) → length (reverse_onto out s) ≡ length out + length s
unfolding reverse_onto
length-reverse_onto out [] = omega arith
length-reverse_onto out (c ∷ s) = omega (arith, length-reverse_onto (c ∷ out) s)

pub length-reverse : (s : Text) → length (reverse s) ≡ length s
unfolding reverse
length-reverse s = omega (arith, length-reverse_onto [] s)

drop-reverse : (s t : Text) → drop (length t) (reverse t ++ reverse s) ≡ reverse s
drop-reverse s t = rw (← length-reverse t) (drop-append (reverse t) (reverse s))

-- strings.TrimSuffix takes off what was put at the end.
pub trim_suffix-append : (s t : Text) → trim_suffix t (s ++ t) ≡ s
unfolding trim_suffix has_suffix
trim_suffix-append s t =
    rw (reverse-append s t, has_prefix-append (reverse t) (reverse s), drop-reverse s t)
      (reverse-reverse s)

pub has_suffix-append : (s p : Text) → has_suffix p (s ++ p) ≡ true
unfolding has_suffix
has_suffix-append s p = rw (reverse-append s p, has_prefix-append (reverse p) (reverse s))
