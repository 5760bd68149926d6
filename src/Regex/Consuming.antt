-- ===== src/Regex/Consuming.antt =====
-- Patterns that take a character, and what a match asks of its continuation.
use crossplane_provider_hana.Prelude.{
  ℕ, zero, suc, ◌≤◌, Bool, true, false, ◌&&◌, ◌||◌, Option, none, some, [], ◌∷◌, ◌≡◌, refl, arith,
  length, ap, Bool-cases, inl, inr, ◌∙◌, if◌then◌else◌,
}
use crossplane_provider_hana.Text.{Text}
use crossplane_provider_hana.Regex.{
  Re, char, empty, seq, alt, star, lazy_star, group, boundary, Cursor, Captures, Cont, star_loop,
  lazy_loop, run, between, at_boundary, char_at,
}

-- Whether every match of a pattern takes a character.
unfoldable pub consuming : Re → Bool
consuming (char p) = true
consuming empty = false
consuming (seq a b) = consuming a || consuming b
consuming (alt a b) = consuming a && consuming b
consuming (star r) = false
consuming (lazy_star r) = false
consuming (group i r) = consuming r
consuming boundary = false

-- Two continuations agree where at most n characters are left.
abbrev pub Agree : ℕ → Cont → Cont → Type 0
Agree n k k' = (t : Cursor) → length t.rest ≤ n → k t ≡ k' t

pub same_choice :
    {x x' y y' : Option Captures}
    → x ≡ x'
    → y ≡ y'
    → (elim x as (λ _. Option Captures) [ none ↦ y | some c ↦ some c ])
      ≡ (elim x' as (λ _. Option Captures) [ none ↦ y' | some c ↦ some c ])
same_choice p q i = elim (p i) as (λ _. Option Captures) [ none ↦ q i | some c ↦ some c ]

pub same_char :
    (p : ℕ → Bool) (k k' : Cont) (text : Text) (captures : Captures)
    → Agree (length text) k k'
    → char_at p k text captures ≡ char_at p k' text captures
same_char p k k' [] captures h = refl
same_char p k k' (c ∷ s) captures h =
    ap (λ (x : Option Captures). if p c then x else none)
      (h (record { before = some c; rest = s; captures = captures }) (omega arith))

same_char_less :
    (p : ℕ → Bool) (k k' : Cont) (text : Text) (captures : Captures)
    → ((t : Cursor) → suc (length t.rest) ≤ length text → k t ≡ k' t)
    → char_at p k text captures ≡ char_at p k' text captures
same_char_less p k k' [] captures h = refl
same_char_less p k k' (c ∷ s) captures h =
    ap (λ (x : Option Captures). if p c then x else none)
      (h (record { before = some c; rest = s; captures = captures }) (omega arith))

module _ (m m' : Cont → Cont) where
  pub same_star :
      (bound : ℕ)
      (same : (k k' : Cont) (s : Cursor)
        → length s.rest ≤ bound
        → Agree (length s.rest) k k'
        → m k s ≡ m' k' s)
      (n : ℕ) (k k' : Cont) (s : Cursor)
      → length s.rest ≤ bound
      → Agree (length s.rest) k k'
      → star_loop n m k s ≡ star_loop n m' k' s
  unfolding star_loop
  same_star bound same zero k k' s b h = h s (omega arith)
  same_star bound same (suc n) k k' s b h =
      same_choice
        (same (star_loop n m k) (star_loop n m' k') s (omega arith)
          (λ t le. same_star bound same n k k' t (omega arith) (λ u le'. h u (omega arith))))
        (h s (omega arith))

  pub same_lazy :
      (bound : ℕ)
      (same : (k k' : Cont) (s : Cursor)
        → length s.rest ≤ bound
        → Agree (length s.rest) k k'
        → m k s ≡ m' k' s)
      (n : ℕ) (k k' : Cont) (s : Cursor)
      → length s.rest ≤ bound
      → Agree (length s.rest) k k'
      → lazy_loop n m k s ≡ lazy_loop n m' k' s
  unfolding lazy_loop
  same_lazy bound same zero k k' s b h = h s (omega arith)
  same_lazy bound same (suc n) k k' s b h = same_choice (h s (omega arith)) (
      same (lazy_loop n m k) (lazy_loop n m' k') s (omega arith)
        (λ t le. same_lazy bound same n k k' t (omega arith) (λ u le'. h u (omega arith))))

-- A match asks its continuation only about what is left of the text.
pub run_same :
    (r : Re) (k k' : Cont) (s : Cursor) → Agree (length s.rest) k k' → run r k s ≡ run r k' s
unfolding run
run_same (char p) k k' s h = same_char p k k' s.rest s.captures h
run_same empty k k' s h = h s (omega arith)
run_same (seq a b) k k' s h =
    run_same a (run b k) (run b k') s (λ t le. run_same b k k' t (λ u le'. h u (omega arith)))
run_same (alt a b) k k' s h = same_choice (run_same a k k' s h) (run_same b k k' s h)
run_same (star r) k k' s h =
    same_star (run r) (run r) (length s.rest) (λ c c' t b. run_same r c c' t) (length s.rest) k k' s
      (omega arith) h
run_same (lazy_star r) k k' s h =
    same_lazy (run r) (run r) (length s.rest) (λ c c' t b. run_same r c c' t) (length s.rest) k k' s
      (omega arith) h
run_same (group i r) k k' s h =
    run_same r _ _ s
      (λ t le. h (record t { captures = (i, between s.rest t.rest) ∷ t.captures }) le)
run_same boundary k k' s h =
    ap (λ (x : Option Captures). if at_boundary s then x else none) (h s (omega arith))

-- A pattern that takes a character asks its continuation only about less than what is left.
pub consuming_same :
    (r : Re) (k k' : Cont) (s : Cursor)
    → consuming r ≡ true
    → ((t : Cursor) → suc (length t.rest) ≤ length s.rest → k t ≡ k' t)
    → run r k s ≡ run r k' s
unfolding run consuming
consuming_same (char p) k k' s c h = same_char_less p k k' s.rest s.captures h
consuming_same empty k k' s c h = absurd (ground arith)
consuming_same (seq a b) k k' s c h = elim (Bool-cases (consuming a)) [
  | inl first ↦
      consuming_same a (run b k) (run b k') s first
        (λ t le. run_same b k k' t (λ u le'. h u (omega arith)))
  | inr later ↦
      run_same a (run b k) (run b k') s
        (λ t le. consuming_same b k k' t (ground arith) (λ u le'. h u (omega arith)))
]
consuming_same (alt a b) k k' s c h =
    same_choice (consuming_same a k k' s (ground arith) h)
      (consuming_same b k k' s (ground arith) h)
consuming_same (star r) k k' s c h = absurd (ground arith)
consuming_same (lazy_star r) k k' s c h = absurd (ground arith)
consuming_same (group i r) k k' s c h =
    consuming_same r _ _ s c
      (λ t le. h (record t { captures = (i, between s.rest t.rest) ∷ t.captures }) le)
consuming_same boundary k k' s c h = absurd (ground arith)

abbrev nowhere : Cont
nowhere t = none

char_nowhere :
    (p : ℕ → Bool) (text : Text) (captures : Captures) → char_at p nowhere text captures ≡ none
char_nowhere p [] captures = refl
char_nowhere p (c ∷ s) captures = ground arith

star_nowhere :
    (r : Re)
    → ((s : Cursor) → run r nowhere s ≡ none)
    → (n : ℕ) (s : Cursor) → star_loop n (run r) nowhere s ≡ none
unfolding star_loop
star_nowhere r fails zero s = refl
star_nowhere r fails (suc n) s =
    same_choice
      (run_same r (star_loop n (run r) nowhere) nowhere s (λ t le. star_nowhere r fails n t)
        ∙ fails s)
      refl

lazy_nowhere :
    (r : Re)
    → ((s : Cursor) → run r nowhere s ≡ none)
    → (n : ℕ) (s : Cursor) → lazy_loop n (run r) nowhere s ≡ none
unfolding lazy_loop
lazy_nowhere r fails zero s = refl
lazy_nowhere r fails (suc n) s =
    run_same r (lazy_loop n (run r) nowhere) nowhere s (λ t le. lazy_nowhere r fails n t) ∙ fails s

-- Nothing matches before a continuation that always fails.
run-nowhere : (r : Re) (s : Cursor) → run r nowhere s ≡ none
unfolding run
run-nowhere (char p) s = char_nowhere p s.rest s.captures
run-nowhere empty s = refl
run-nowhere (seq a b) s =
    run_same a (run b nowhere) nowhere s (λ t le. run-nowhere b t) ∙ run-nowhere a s
run-nowhere (alt a b) s = same_choice (run-nowhere a s) (run-nowhere b s)
run-nowhere (star r) s = star_nowhere r (run-nowhere r) (length s.rest) s
run-nowhere (lazy_star r) s = lazy_nowhere r (run-nowhere r) (length s.rest) s
run-nowhere (group i r) s = run-nowhere r s
run-nowhere boundary s = ground arith

pub at_the_end :
    (r : Re) (k : Cont) (s : Cursor) → consuming r ≡ true → length s.rest ≤ 0 → run r k s ≡ none
at_the_end r k s c e =
    consuming_same r k nowhere s c (λ t le. absurd (omega arith)) ∙ run-nowhere r s
