-- ===== src/Regex/Fuel.antt =====
-- The fuel of the loops over a star.
use crossplane_provider_hana.Prelude.{
  ℕ, zero, suc, ◌≤◌, Bool, true, ◌&&◌, Option, none, some, [], ◌∷◌, ◌≡◌, refl, arith, length, ap,
  ◌∙◌, sym, if◌then◌else◌,
}
use crossplane_provider_hana.Text.{Text}
use crossplane_provider_hana.Regex.{
  Re, char, empty, seq, alt, star, lazy_star, group, boundary, Cursor, Captures, Cont, star_loop,
  lazy_loop, run, between, at_boundary, char_at, at_end, find_submatch,
}
use crossplane_provider_hana.Regex.Consuming.{
  consuming, Agree, same_choice, same_char, same_star, same_lazy, consuming_same, at_the_end,
}

-- The fuel of the greedy loop, the length of the text that is left, is enough: where the body of the
-- star takes a character in every match, any two amounts that are no less give the same match.
star_loop_enough :
    (r : Re) (k : Cont)
    → consuming r ≡ true
    → (n m : ℕ) (s : Cursor) → length s.rest ≤ n
    → length s.rest ≤ m
    → star_loop n (run r) k s ≡ star_loop m (run r) k s
unfolding star_loop
star_loop_enough r k c zero zero s ln lm = refl
star_loop_enough r k c zero (suc m) s ln lm =
    sym (same_choice (at_the_end r (star_loop m (run r) k) s c ln) refl)
star_loop_enough r k c (suc n) zero s ln lm =
    same_choice (at_the_end r (star_loop n (run r) k) s c lm) refl
star_loop_enough r k c (suc n) (suc m) s ln lm =
    same_choice
      (consuming_same r (star_loop n (run r) k) (star_loop m (run r) k) s c
        (λ t le. star_loop_enough r k c n m t (omega arith) (omega arith)))
      refl

choice_none :
    (x : Option Captures) → (elim x as (λ _. Option Captures) [ none ↦ none | some c ↦ some c ]) ≡ x
choice_none none = refl
choice_none (some c) = refl

-- The fuel of the lazy loop is enough in the same way.
lazy_loop_enough :
    (r : Re) (k : Cont)
    → consuming r ≡ true
    → (n m : ℕ) (s : Cursor) → length s.rest ≤ n
    → length s.rest ≤ m
    → lazy_loop n (run r) k s ≡ lazy_loop m (run r) k s
unfolding lazy_loop
lazy_loop_enough r k c zero zero s ln lm = refl
lazy_loop_enough r k c zero (suc m) s ln lm =
    sym (same_choice refl (at_the_end r (lazy_loop m (run r) k) s c ln) ∙ choice_none (k s))
lazy_loop_enough r k c (suc n) zero s ln lm =
    same_choice refl (at_the_end r (lazy_loop n (run r) k) s c lm) ∙ choice_none (k s)
lazy_loop_enough r k c (suc n) (suc m) s ln lm = same_choice refl (
    consuming_same r (lazy_loop n (run r) k) (lazy_loop m (run r) k) s c
      (λ t le. lazy_loop_enough r k c n m t (omega arith) (omega arith)))

-- The matcher with a given fuel for every loop.
unfoldable pub run_with : ℕ → Re → Cont → Cont
unfolding star_loop lazy_loop between at_boundary
run_with n (char p) k s = char_at p k s.rest s.captures
run_with n empty k s = k s
run_with n (seq a b) k s = run_with n a (run_with n b k) s
run_with n (alt a b) k s = elim (run_with n a k s) [ none ↦ run_with n b k s | some c ↦ some c ]
run_with n (star r) k s = star_loop n (run_with n r) k s
run_with n (lazy_star r) k s = lazy_loop n (run_with n r) k s
run_with n (group i r) k s =
    run_with n r (λ t. k (record t { captures = (i, between s.rest t.rest) ∷ t.captures })) s
run_with n boundary k s = let next = k s in if at_boundary s then next else none

-- Whether the body of every star takes a character in every match.
unfoldable pub stars_consume : Re → Bool
unfolding consuming
stars_consume (char p) = true
stars_consume empty = true
stars_consume (seq a b) = stars_consume a && stars_consume b
stars_consume (alt a b) = stars_consume a && stars_consume b
stars_consume (star r) = consuming r && stars_consume r
stars_consume (lazy_star r) = consuming r && stars_consume r
stars_consume (group i r) = stars_consume r
stars_consume boundary = true

fuel_same :
    (n : ℕ) (r : Re) (k k' : Cont) (s : Cursor)
    → stars_consume r ≡ true
    → length s.rest ≤ n
    → Agree (length s.rest) k k'
    → run_with n r k s ≡ run r k' s
unfolding run_with run stars_consume
fuel_same n (char p) k k' s c b h = same_char p k k' s.rest s.captures h
fuel_same n empty k k' s c b h = h s (omega arith)
fuel_same n (seq x y) k k' s c b h =
    fuel_same n x (run_with n y k) (run y k') s (ground arith) b
      (λ t le. fuel_same n y k k' t (ground arith) (omega arith) (λ u le'. h u (omega arith)))
fuel_same n (alt x y) k k' s c b h =
    same_choice (fuel_same n x k k' s (ground arith) b h) (fuel_same n y k k' s (ground arith) b h)
fuel_same n (star r) k k' s c b h =
    same_star (run_with n r) (run r) n (λ d d' t le. fuel_same n r d d' t (ground arith) le) n k k'
      s b h
    ∙ star_loop_enough r k' (ground arith) n (length s.rest) s b (omega arith)
fuel_same n (lazy_star r) k k' s c b h =
    same_lazy (run_with n r) (run r) n (λ d d' t le. fuel_same n r d d' t (ground arith) le) n k k'
      s b h
    ∙ lazy_loop_enough r k' (ground arith) n (length s.rest) s b (omega arith)
fuel_same n (group i r) k k' s c b h =
    fuel_same n r _ _ s c b
      (λ t le. h (record t { captures = (i, between s.rest t.rest) ∷ t.captures }) le)
fuel_same n boundary k k' s c b h =
    ap (λ (x : Option Captures). if at_boundary s then x else none) (h s (omega arith))

-- Where the body of every star takes a character, a match with any fuel that is no less than the
-- length of the text is the match of FindStringSubmatch.
pub find_submatch_enough :
    (n : ℕ) (r : Re) (text : Text)
    → stars_consume r ≡ true
    → length text ≤ n
    → run_with n r at_end (record { before = none; rest = text; captures = [] })
      ≡ find_submatch r text
unfolding find_submatch
find_submatch_enough n r text c b =
    fuel_same n r at_end at_end (record { before = none; rest = text; captures = [] }) c b
      (λ t le. refl)
