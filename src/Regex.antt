-- ===== src/Regex.antt =====
-- Package regexp as the provider uses it: leftmost-first matching of anchored patterns over ASCII,
-- with captures. A pattern is matched by handing what is left of the text to a continuation.
pub mod Laws
mod Consuming
pub mod Fuel
use crossplane_provider_hana.Prelude.{
  ℕ, zero, suc, ◌-◌, Bool, true, false, ◌&&◌, ◌||◌, not, Option, none, some, List, [], ◌∷◌, ◌==◌,
  if◌then◌else◌, length, leb, String, ℕ_eq,
}
use crossplane_provider_hana.Text.{Text, lit, upper_char}

pub data Re : Type 0 where
  char : (ℕ → Bool) → Re  -- one character of a class
  empty : Re
  seq : Re → Re → Re
  alt : Re → Re → Re  -- the left side is preferred
  star : Re → Re  -- greedy
  lazy_star : Re → Re
  group : ℕ → Re → Re  -- a numbered capture
  boundary : Re  -- \b

-- Where a match stands: the character before, the text left, and the captures so far.
pub record Cursor : Type 0 where
  pub before : Option ℕ
  pub rest : Text
  pub captures : List (ℕ × Text)

abbrev pub Captures : Type 0
Captures = List (ℕ × Text)

abbrev pub Cont : Type 0
Cont = Cursor → Option Captures

unfoldable pub take : ℕ → Text → Text
take zero s = []
take (suc n) [] = []
take (suc n) (c ∷ s) = c ∷ take n s

-- the text between two positions of one match
unfoldable pub between : Text → Text → Text
unfolding take
between start stop = take (length start - length stop) start

unfoldable pub is_word : ℕ → Bool
is_word c = leb 48 c && leb c 57 || leb 65 c && leb c 90 || leb 97 c && leb c 122 || c == 95

abbrev pub word_before : Option ℕ → Bool
word_before none = false
word_before (some c) = is_word c

abbrev pub word_after : Text → Bool
word_after [] = false
word_after (c ∷ s) = is_word c

unfoldable pub at_boundary : Cursor → Bool
unfolding is_word
at_boundary s = if word_before s.before then not (word_after s.rest) else word_after s.rest

abbrev pub first_some : Option Captures → Option Captures → Option Captures
first_some none other = other
first_some (some c) other = some c

abbrev pub char_at : (ℕ → Bool) → Cont → Text → Captures → Option Captures
char_at p k [] caps = none
char_at p k (c ∷ s) caps =
    let next = k (record { before = some c; rest = s; captures = caps }) in
    if p c then next else none

-- The body of a star takes a character each time, so the length of the text bounds the rounds.
unfoldable pub star_loop : ℕ → (Cont → Cont) → Cont → Cont
star_loop zero m k s = k s
star_loop (suc n) m k s = elim (m (star_loop n m k) s) [ none ↦ k s | some c ↦ some c ]

unfoldable pub lazy_loop : ℕ → (Cont → Cont) → Cont → Cont
lazy_loop zero m k s = k s
lazy_loop (suc n) m k s = elim (k s) [ none ↦ m (lazy_loop n m k) s | some c ↦ some c ]

unfoldable pub run : Re → Cont → Cont
unfolding star_loop lazy_loop between at_boundary
run (char p) k s = char_at p k s.rest s.captures
run empty k s = k s
run (seq a b) k s = run a (run b k) s
run (alt a b) k s = elim (run a k s) [ none ↦ run b k s | some c ↦ some c ]
run (star r) k s = star_loop (length s.rest) (run r) k s
run (lazy_star r) k s = lazy_loop (length s.rest) (run r) k s
run (group i r) k s =
    run r (λ t. k (record t { captures = (i, between s.rest t.rest) ∷ t.captures })) s
run boundary k s = let next = k s in if at_boundary s then next else none

-- `$`
abbrev pub at_end : Cont
at_end s = elim s.rest [ [] ↦ some s.captures | c ∷ r ↦ none ]

-- FindStringSubmatch of a pattern between `^` and `$`
unfoldable pub find_submatch : Re → Text → Option Captures
unfolding run
find_submatch r s = run r at_end (record { before = none; rest = s; captures = [] })

-- m[i], which is empty for a group that took no part
unfoldable pub submatch : Captures → ℕ → Text
submatch [] i = []
submatch ((j, s) ∷ caps) i = let rest = submatch caps i in if j == i then s else rest

-- One character in either case.
abbrev pub either_case : ℕ → ℕ → Bool
either_case c d = upper_char d == upper_char c

-- A word of the pattern under (?i).
abbrev pub word : Text → Re
word [] = empty
word (c ∷ []) = char (either_case c)
word (c ∷ d ∷ s) = seq (char (either_case c)) (word (d ∷ s))

abbrev pub opt : Re → Re
opt r = alt r empty

abbrev pub plus : Re → Re
plus r = seq r (star r)

-- \s
unfoldable pub is_blank : ℕ → Bool
is_blank c = c == 9 || c == 10 || c == 12 || c == 13 || c == 32

unfoldable pub is_letter : ℕ → Bool
is_letter c = leb 65 c && leb c 90 || leb 97 c && leb c 122

unfoldable pub is_digit : ℕ → Bool
is_digit c = leb 48 c && leb c 57
