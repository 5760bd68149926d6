-- ===== src/Regex/Laws.antt =====
-- Captures, and a star that takes nothing.
use crossplane_provider_hana.Prelude.{
  ℕ, ◌-◌, ◌+◌, Bool, false, Option, [], ◌∷◌, ◌++◌, ◌≡◌, refl, arith, length, length-append, ap,
}
use crossplane_provider_hana.Text.{Text}
use crossplane_provider_hana.Regex.{char, star, Captures, Cont, take, between, run}

pub take-length : (s t : Text) → take (length s) (s ++ t) ≡ s
unfolding take
take-length [] [] = refl
take-length [] (c ∷ t) = refl
take-length (c ∷ s) t = ap (λ (u : Text). c ∷ u) (take-length s t)

-- What a group captures.
pub between-append : (s t : Text) → between (s ++ t) t ≡ s
unfolding between
between-append s t =
    rw (length-append s t)
      (let e : length s + length t - length t ≡ length s = omega arith in rw e (take-length s t))

-- A star over a class takes nothing where the next character is not in the class.
pub run-star_none :
    (p : ℕ → Bool) (k : Cont) (before : Option ℕ) (c : ℕ) (s : Text) (captures : Captures)
    → p c ≡ false
    → run (star (char p)) k (record { before = before; rest = c ∷ s; captures = captures })
      ≡ k (record { before = before; rest = c ∷ s; captures = captures })
unfolding run
run-star_none p k before c s captures h = ground (arith, h)
