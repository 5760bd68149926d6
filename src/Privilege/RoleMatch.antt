-- ===== src/Privilege/RoleMatch.antt =====
-- What the regular expression of roles captures in the printed form of a role.
use crossplane_provider_hana.Prelude.{
  ℕ, zero, suc, ◌<◌, false, not, Option, none, some, [], ◌∷◌, ◌++◌, ◌≡◌, refl, arith, length,
  length-append, Bool-cases, inl, inr, ◌==◌, ℕ_eq, ◌∙◌,
}
use crossplane_provider_hana.Text.{Text, lit, text_eq, upper_char}
use crossplane_provider_hana.Text.Laws.{double_char}
use crossplane_provider_hana.Regex.{
  Re, char, seq, alt, Captures, Cont, char_at, between, star_loop, run, find_submatch, opt, group,
  at_end, is_blank,
}
use crossplane_provider_hana.Regex.Laws.{run-star_none}
use crossplane_provider_hana.Privilege.Patterns.{
  is_quote, quote, role_regex, identifier_pattern, dot, ◌⨾◌, role_ending, role_name,
}

abbrev inside : Re
inside = alt (char (λ c. not (is_quote c))) (seq quote quote)

-- No closing quote is doubled.
abbrev Closes : Text → Type 0
Closes [] = Unit {0}
Closes (c ∷ s) = is_quote c ≡ false

no_quote :
    (k : Cont) (tail : Text) (captures : Captures)
    → Closes tail
    → char_at is_quote k tail captures ≡ none
no_quote k [] captures h = refl
no_quote k (c ∷ s) captures h = rw h

shorter :
    (c : ℕ) (name : Text) (n : ℕ)
    → length (double_char 34 (c ∷ name)) < suc n
    → length (double_char 34 name) < n
unfolding double_char
shorter c name n h = ground arith

module _ (k : Cont) (found : Captures) (captures : Captures) (tail : Text)
    (closes : Closes tail) where
  -- The greedy loop over the inside of a quoted identifier stops at the closing quote.
  inside_loop :
      (name : Text) (n : ℕ) (before : Option ℕ)
      → length (double_char 34 name) < n
      → ((b : Option ℕ)
          → k (record { before = b; rest = 34 ∷ tail; captures = captures }) ≡ some found)
      → star_loop n
          (run inside)
          k
          (record { before = before; rest = double_char 34 name ++ 34 ∷ tail; captures = captures })
        ≡ some found
  unfolding run star_loop double_char
  inside_loop name zero before h goal = absurd (omega arith)
  inside_loop [] (suc n) before h goal =
      ground (arith, no_quote (star_loop n (run inside) k) tail captures closes, goal before)
  inside_loop (c ∷ name) (suc n) before h goal = elim (Bool-cases (34 == c)) [
    | inl same ↦ ground (arith, same, inside_loop name n (some 34) (shorter c name n h) goal)
    | inr other ↦ ground (arith, other, inside_loop name n (some c) (shorter c name n h) goal)
  ]

-- The text of a quoted identifier and what follows it.
abbrev pub in_quotes : Text → Text → Text
in_quotes name tail = 34 ∷ (double_char 34 name ++ 34 ∷ tail)

room : (name tail : Text) → length (double_char 34 name) < length (double_char 34 name ++ 34 ∷ tail)
room name tail = omega (arith, length-append (double_char 34 name) (34 ∷ tail))

-- A quoted identifier is matched up to its closing quote.
run_identifier :
    (k : Cont) (found captures : Captures) (tail : Text)
    → Closes tail
    → (name : Text) (before : Option ℕ)
    → k (record { before = some 34; rest = tail; captures = captures }) ≡ some found
    → run identifier_pattern k
        (record { before = before; rest = in_quotes name tail; captures = captures })
      ≡ some found
unfolding run
run_identifier k found captures tail closes name before goal = ground (
  arith,
  inside_loop (run quote k) found captures tail closes name
      (length (double_char 34 name ++ 34 ∷ tail)) (some 34) (room name tail) (λ b. goal),
)

-- Where a role's name has been matched: the capture, and what is left of the pattern.
abbrev after_name : Text → Cont
after_name start =
    run (opt (dot ⨾ identifier_pattern))
      λ t. run role_ending at_end (record t { captures = (1, between start t.rest) ∷ t.captures })

find_role :
    (tail : Text) (found : Captures) (name : Text)
    → Closes tail
    → after_name (in_quotes name tail) (record { before = some 34; rest = tail; captures = [] })
      ≡ some found
    → find_submatch role_regex (in_quotes name tail) ≡ some found
unfolding find_submatch role_regex
find_role tail found name closes goal =
    run-star_none is_blank (run (group 1 role_name ⨾ role_ending) at_end) none 34
      (double_char 34 name ++ 34 ∷ tail) [] refl
    ∙ run_identifier (after_name (in_quotes name tail)) found [] tail closes name none goal

abbrev pub admin_suffix : Text
admin_suffix = lit " WITH ADMIN OPTION"

pub find_role_plain :
    (name : Text)
    → find_submatch role_regex (in_quotes name []) ≡ some ((1, between (in_quotes name []) []) ∷ [])
find_role_plain name = find_role [] _ name tt (unfold run is_blank in refl)

pub find_role_admin :
    (name : Text)
    → find_submatch role_regex (in_quotes name admin_suffix)
      ≡ some ((2, admin_suffix) ∷ (1, between (in_quotes name admin_suffix) admin_suffix) ∷ [])
find_role_admin name = find_role admin_suffix _ name refl (unfold run is_blank upper_char in refl)
