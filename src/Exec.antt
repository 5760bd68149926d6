-- ===== src/Exec.antt =====
-- Handlers that change a state and may fail. What was written before a failure stays written, so
-- the state comes back beside the error too.
use crossplane_provider_hana.Prelude.{◌≡◌, Bool, true, false}
use crossplane_provider_hana.Prelude.{ap, refl}
use crossplane_provider_hana.Errors.{Err, Result, ok, err}

abbrev pub Exec : Type 0 → Type 0 → Type 0
Exec S A = S → Result A × S

module _ {S A : Type 0} where
  abbrev pub pure : A → Exec S A
  pure a s = (ok a, s)

  abbrev pub fail : Err → Exec S A
  fail e s = (err e, s)

  abbrev pub lift : Result A → Exec S A
  lift r s = (r, s)

  abbrev pub gets : (S → A) → Exec S A
  gets f s = (ok (f s), s)

abbrev pub modify : {S : Type 0} → (S → S) → Exec S (Unit {0})
modify f s = (ok tt, f s)

module _ {S A B : Type 0} where
  abbrev pub continue : Result A → (A → Exec S B) → Exec S B
  continue (ok a) f s = f a s
  continue (err e) f s = (err e, s)

  infixl 10 ◌>>=◌ ◌>>◌
  abbrev pub ◌>>=◌ : Exec S A → (A → Exec S B) → Exec S B
  ◌>>=◌ m f s = continue (m s).0 f (m s).1

  abbrev pub ◌>>◌ : Exec S A → Exec S B → Exec S B
  m >> n = m >>= λ _. n

abbrev pub relabel : {A : Type 0} → (Err → Err) → Result A → Result A
relabel f (ok a) = ok a
relabel f (err e) = err (f e)

continue_ok :
    {S A B : Type 0} (r : Result A) (f : A → Exec S B) (s : S) {b : B}
    → (continue r f s).0 ≡ ok b
    → (a : A) × (r ≡ ok a)
continue_ok (ok a) f s h = (a, refl)
continue_ok (err e) f s h = cc

module _ {S A B : Type 0} (m : Exec S A) (f : A → Exec S B) (s : S) where
  -- A step that succeeds hands its value and state on.
  pub bind_step : {a : A} → (m s).0 ≡ ok a → (m >>= f) s ≡ f a (m s).1
  bind_step h = ap (λ (r : Result A). continue r f (m s).1) h

  -- A block that succeeds has a first step that succeeds.
  pub bind_ok :
      {b : B} → ((m >>= f) s).0 ≡ ok b → (a : A) × ((m s).0 ≡ ok a) × ((m >>= f) s ≡ f a (m s).1)
  bind_ok h = let (a, e) = continue_ok (m s).0 f (m s).1 h in (a, e, bind_step e)

module _ {S A : Type 0} where
  -- `if err != nil { return fmt.Errorf(…, err) }`
  abbrev pub or_fail : (Err → Err) → Exec S A → Exec S A
  or_fail f m s = (relabel f (m s).0, (m s).1)

-- `if test { … }` with nothing in the other branch
abbrev pub when : {S : Type 0} → Bool → Exec S (Unit {0}) → Exec S (Unit {0})
when true m s = m s
when false m s = (ok tt, s)
