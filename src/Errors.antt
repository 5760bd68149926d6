-- ===== src/Errors.antt =====
-- Go's `error` values: what they wrap, `errors.Is`, `errors.As` and their messages.
use crossplane_provider_hana.Prelude.{
  ℕ, Bool, true, false, Option, none, some, ◌++◌, ◌≡◌, refl, ◌⊎◌, inl, inr,
}
use crossplane_provider_hana.Text.{Text, lit}

-- The sentinels of internal/clients/hana/user/user_client.go.
pub data AuthError : Type 0 where
  validity_period user_deactivated user_locked : AuthError

pub data Err : Type 0 where
  no_rows : Err  -- sql.ErrNoRows
  driver : ℕ → Text → Err  -- go-hdb's driver.Error: its code and message
  auth : AuthError → Err
  other : Text → Err  -- errors.New, or fmt.Errorf that wraps nothing
  wrap : Text → Err → Err  -- fmt.Errorf("prefix%w", err)
  nil_dereference : Err  -- the panic that ends a handler

pub data Result (A : Type 0) : Type 0 where
  ok : A → Result A
  err : Err → Result A

abbrev pub bind : {A B : Type 0} → Result A → (A → Result B) → Result B
bind (ok a) f = f a
bind (err e) f = err e

-- err.Error()
unfoldable pub message : Err → Text
message no_rows = lit "sql: no rows in result set"
message (driver code text) = text
message (auth validity_period) = lit "connect attempt outside user's validity period"
message (auth user_deactivated) = lit "user is deactivated"
message (auth user_locked) = lit "user is locked"
message (other text) = text
message nil_dereference = lit "runtime error: invalid memory address or nil pointer dereference"
message (wrap prefix e) = prefix ++ message e

-- errors.Is(err, sql.ErrNoRows)
unfoldable pub is_no_rows : Err → Bool
is_no_rows no_rows = true
is_no_rows (wrap prefix e) = is_no_rows e
is_no_rows e = false

-- errors.Is(err, …) for the three sentinels of the user client
unfoldable pub as_auth : Err → Option AuthError
as_auth (auth a) = some a
as_auth (wrap prefix e) = as_auth e
as_auth e = none

-- errors.As(err, &dbError) and dbError.Code()
unfoldable pub as_driver : Err → Option ℕ
as_driver (driver code text) = some code
as_driver (wrap prefix e) = as_driver e
as_driver e = none

-- fmt.Errorf("prefix%w", err), errors.Wrap: a panic passes it by.
unfoldable pub wrapping : Text → Err → Err
wrapping prefix nil_dereference = nil_dereference
wrapping prefix e = wrap prefix e

-- `*p`
abbrev pub deref : {A : Type 0} → Option A → Result A
deref none = err nil_dereference
deref (some a) = ok a

pub Result-cases : {A : Type 0} (r : Result A) → ((a : A) × (r ≡ ok a)) ⊎ ((e : Err) × (r ≡ err e))
Result-cases (ok a) = inl (a, refl)
Result-cases (err e) = inr (e, refl)
