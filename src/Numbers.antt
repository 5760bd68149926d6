-- ===== src/Numbers.antt =====
-- Go's int, and strconv.Itoa and strconv.ParseInt in base 10.
use Prim.Native.Nat.{◌/◌, ◌%◌}
use crossplane_provider_hana.Prelude.{
  ℕ, zero, suc, ◌+◌, ◌*◌, ◌-◌, Bool, true, false, ◌&&◌, Option, none, some, [], ◌∷◌, ◌==◌,
  if◌then◌else◌, leb, nat_eq, Eq, ℕ_eq, nat_eq_iff, ◌≡◌, ◌↔◌, ap, sym,
}
use crossplane_provider_hana.Text.{Text}

pub data ℤ : Type 0 where
  pos : ℕ → ℤ  -- n
  negsuc : ℕ → ℤ  -- -(n + 1)

unfoldable pub int_beq : ℤ → ℤ → Bool
int_beq (pos m) (pos n) = nat_eq m n
int_beq (negsuc m) (negsuc n) = nat_eq m n
int_beq m n = false

abbrev digits_of : ℤ → ℕ
digits_of (pos n) = n
digits_of (negsuc n) = n

abbrev is_pos : ℤ → Bool
is_pos (pos n) = true
is_pos (negsuc n) = false

pub int_beq_iff : (m n : ℤ) → (int_beq m n ≡ true) ↔ (m ≡ n)
unfolding int_beq
int_beq_iff (pos m) (pos n) =
    (λ h. ap pos ((nat_eq_iff m n).0 h), λ e. (nat_eq_iff m n).1 (ap digits_of e))
int_beq_iff (negsuc m) (negsuc n) =
    (λ h. ap negsuc ((nat_eq_iff m n).0 h), λ e. (nat_eq_iff m n).1 (ap digits_of e))
int_beq_iff (pos m) (negsuc n) = (λ h. cc, λ e. sym (ap is_pos e))
int_beq_iff (negsuc m) (pos n) = (λ h. cc, λ e. ap is_pos e)

instance abbrev pub ℤ_eq : Eq ℤ
ℤ_eq = record { beq = int_beq; beq_iff = int_beq_iff }

-- The decimal digits of n in front of others; n has fewer digits than the fuel, n + 1.
unfoldable pub digits : ℕ → ℕ → Text → Text
digits zero n out = out
digits (suc fuel) n out =
    let out' = (48 + n % 10) ∷ out in
    let rest = digits fuel (n / 10) out' in if leb n 9 then out' else rest

unfoldable pub print_nat : ℕ → Text
unfolding digits
print_nat n = digits (suc n) n []

-- strconv.Itoa, and `%d`
unfoldable pub itoa : ℤ → Text
unfolding print_nat
itoa (pos n) = print_nat n
itoa (negsuc n) = 45 ∷ print_nat (suc n)

unfoldable pub read_digits : ℕ → Text → Option ℕ
read_digits n [] = some n
read_digits n (c ∷ s) =
    let rest = read_digits (n * 10 + (c - 48)) s in if leb 48 c && leb c 57 then rest else none

abbrev some_digits : Text → Option ℕ
some_digits [] = none
some_digits (c ∷ s) = read_digits 0 (c ∷ s)

abbrev positive : Option ℕ → Option ℤ
positive none = none
positive (some n) = if leb n 9223372036854775807 then some (pos n) else none

abbrev negative : Option ℕ → Option ℤ
negative none = none
negative (some zero) = some (pos zero)
negative (some (suc n)) = if leb n 9223372036854775807 then some (negsuc n) else none

-- strconv.ParseInt(s, 10, 64)
unfoldable pub parse_int : Text → Option ℤ
unfolding read_digits
parse_int [] = none
parse_int (c ∷ s) =
    if c == 45
    then negative (some_digits s)
    else if c == 43
    then positive (some_digits s)
    else positive (some_digits (c ∷ s))
