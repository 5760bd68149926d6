-- ===== src/Privilege/Fuel.antt =====
-- The matcher's fuel, for the regular expressions of privilege.go.
use crossplane_provider_hana.Prelude.{
  ℕ, ◌≤◌, Bool, true, ◌&&◌, Option, none, some, List, [], ◌∷◌, ◌≡◌, refl, arith, length,
}
use crossplane_provider_hana.Text.{Text}
use crossplane_provider_hana.Regex.{Re, Captures, find_submatch, at_end}
use crossplane_provider_hana.Regex.Fuel.{run_with, stars_consume, find_submatch_enough}
use crossplane_provider_hana.Privilege.Patterns.{role_regex, privilege_patterns, Build}
use crossplane_provider_hana.Privilege.Parse.{first_match, Match}

-- FindStringSubmatch with a given fuel for every loop.
abbrev find_with : ℕ → Re → Text → Option Captures
find_with n re text = run_with n re at_end (record { before = none; rest = text; captures = [] })

abbrev all_consume : List (Re × Build) → Bool
all_consume [] = true
all_consume ((re, b) ∷ patterns) = stars_consume re && all_consume patterns

abbrev chosen : Build → Option Match → Option Captures → Option Match
chosen b rest none = rest
chosen b rest (some m) = some (m, b)

-- The loop over the patterns with a given fuel.
abbrev first_match_with : ℕ → List (Re × Build) → Text → Option Match
first_match_with n [] priv_str = none
first_match_with n ((re, b) ∷ patterns) priv_str =
    chosen b (first_match_with n patterns priv_str) (find_with n re priv_str)

first_match_enough :
    (n : ℕ) (patterns : List (Re × Build)) (priv_str : Text)
    → all_consume patterns ≡ true
    → length priv_str ≤ n
    → first_match_with n patterns priv_str ≡ first_match patterns priv_str
unfolding first_match
first_match_enough n [] priv_str c b = refl
first_match_enough n ((re, build) ∷ patterns) priv_str c b = λ i.
    chosen build (first_match_enough n patterns priv_str (ground arith) b i)
      (find_submatch_enough n re priv_str (ground arith) b i)

-- The patterns of roles and of privileges find the same match with every fuel that is no less than
-- the length of the text, so the matcher never gives up for want of fuel.
matches_enough :
    (n : ℕ) (text : Text)
    → length text ≤ n
    → (find_with n role_regex text ≡ find_submatch role_regex text)
      × (first_match_with n privilege_patterns text ≡ first_match privilege_patterns text)
unfolding role_regex privilege_patterns stars_consume
matches_enough n text b = (
  find_submatch_enough n role_regex text refl b,
  first_match_enough n privilege_patterns text refl b,
)
