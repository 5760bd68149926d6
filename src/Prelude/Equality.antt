-- ===== src/Prelude/Equality.antt =====
-- Go's `==` on comparable types, as an interface with its law.
use Prim.Native.Nat.{ℕ}
use mathlib.Core.Path.{◌≡◌, refl}
use mathlib.Core.Logic.{◌↔◌}
use mathlib.Core.Bool.{Bool, true, false, ◌&&◌}
use mathlib.Core.List.{List, [], ◌∷◌}
use native.Mathlib.Omega.{arith}
use crossplane_provider_hana.Prelude.Tests.{nat_eq, nat_eq_iff}

pub record Eq {ℓ} (A : Type ℓ) : Type ℓ where
  pub beq : A → A → Bool
  pub beq_iff : (a b : A) → (beq a b ≡ true) ↔ (a ≡ b)

pub beq_self {ℓ} : {A : Type ℓ} ⦃equality : Eq A⦄ (a : A) → equality.beq a a ≡ true
beq_self ⦃equality⦄ a = (equality.beq_iff a a).1 refl

abbrev pub ◌==◌ {ℓ} : {A : Type ℓ} ⦃equality : Eq A⦄ → A → A → Bool
◌==◌ ⦃equality⦄ = equality.beq

infix 50 ◌==◌
instance abbrev pub ℕ_eq : Eq ℕ
ℕ_eq = record { beq = nat_eq; beq_iff = nat_eq_iff }

module _ {ℓ} {A : Type ℓ} ⦃e : Eq A⦄ where
  unfoldable pub list_eq : List A → List A → Bool
  list_eq [] [] = true
  list_eq [] (y ∷ ys) = false
  list_eq (x ∷ xs) [] = false
  list_eq (x ∷ xs) (y ∷ ys) = x == y && list_eq xs ys

  pub list_eq_sound : (xs ys : List A) → list_eq xs ys ≡ true → xs ≡ ys
  unfolding list_eq
  list_eq_sound [] [] h = refl
  list_eq_sound [] (y ∷ ys) h = ground arith
  list_eq_sound (x ∷ xs) [] h = ground arith
  list_eq_sound (x ∷ xs) (y ∷ ys) h = ground (arith, (e.beq_iff x y).0, list_eq_sound xs ys)

  pub list_eq_self : (xs : List A) → list_eq xs xs ≡ true
  unfolding list_eq
  list_eq_self [] = refl
  list_eq_self (x ∷ xs) = ground (arith, beq_self x, list_eq_self xs)

unfoldable pub discrete_beq {ℓ} : {A : Type ℓ} → Discrete A → A → A → Bool
discrete_beq dec a b = elim (dec a b) [ yes _ ↦ true | no _ ↦ false ]

pub discrete_beq_iff {ℓ} :
    {A : Type ℓ} (dec : Discrete A) (a b : A) → (discrete_beq dec a b ≡ true) ↔ (a ≡ b)
unfolding discrete_beq
discrete_beq_iff dec a b =
    elim (dec a b) as (λ d. (elim d [ yes _ ↦ true | no _ ↦ false ] ≡ true) ↔ (a ≡ b)) [
      | yes e ↦ (λ _. e, λ _. refl)
      | no n ↦ (λ h. cc, λ e. absurd (n e))
    ]

-- `==` on structs and enumerations.
abbrev pub discrete_eq {ℓ} : {A : Type ℓ} → Discrete A → Eq A
discrete_eq dec = record { beq = discrete_beq dec; beq_iff = discrete_beq_iff dec }
