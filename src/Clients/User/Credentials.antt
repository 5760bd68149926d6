-- ===== src/Clients/User/Credentials.antt =====
-- internal/clients/hana/user/user_client.go: the validation of a password, and the meaning of an
-- authentication failure.
pub mod Laws
use crossplane_provider_hana.Prelude.{
  ℕ, Bool, true, false, Option, none, some, [], ◌∷◌, ◌++◌, ◌==◌, if◌then◌else◌, ℕ_eq,
}
use crossplane_provider_hana.Text.{Text, lit, text_eq, cut, is_empty}
use crossplane_provider_hana.Errors.{
  Err, Result, ok, err, other, wrap, auth, validity_period, user_deactivated, user_locked, message,
  as_driver, bind,
}
use crossplane_provider_hana.Sql.{Database, History, exec, query_row, Row, scan_text, wrong_columns}
use crossplane_provider_hana.Apis.{UserParameters}
use crossplane_provider_hana.Privilege.Queries.{Pair}
use crossplane_provider_hana.Clients.User.{wants_password}

-- The text between `correlation ID '` and the next quote; empty where there is none.
unfoldable pub extract_correlation_id : Text → Text
unfolding cut
extract_correlation_id err_text = elim (cut (lit "correlation ID '") err_text) [
  | none ↦ []
  | some (before, after) ↦ elim (cut (lit "'") after) [ none ↦ [] | some (id, rest) ↦ id ]
]

-- What an internal error code says: whether the password stands, and the error.
abbrev pub Verdict : Type 0
Verdict = Bool × Option Err

unfoldable pub verdict_of_code : Text → Text → Verdict
verdict_of_code internal_error_code correlation_id =
    if internal_error_code == lit "A10"
    then (false, none)
    else if internal_error_code == lit "U03"
    then (true, some (auth validity_period))
    else if internal_error_code == lit "U02"
    then (true, some (auth user_deactivated))
    else if internal_error_code == lit "U06"
    then (true, some (auth user_locked))
    else (
      true,
      some (
          other (
            lit "unknown internal error code "
            ++ internal_error_code
            ++ lit " for correlation ID "
            ++ correlation_id)),
    )

abbrev scan_code : Row → Result Text
scan_code (code ∷ []) = scan_text code
scan_code row = err wrong_columns

abbrev verdict_of_scan : Text → Result Text → Verdict
verdict_of_scan correlation_id (ok code) = verdict_of_code code correlation_id
verdict_of_scan correlation_id (err e) = (
  true,
  some (
      wrap (lit "cannot get internal error code for correlation ID " ++ correlation_id ++ lit ": ")
        e),
)

module _ (db : Database) where
  unfoldable pub handle_authentication_error : Err → Pair History Bool
  unfolding query_row extract_correlation_id verdict_of_code message scan_text
  handle_authentication_error e h =
      let correlation_id = extract_correlation_id (message e) in
      let (row, h') =
        query_row db
          (lit
            "SELECT INTERNAL_ERROR_CODE FROM SYS.AUTHENTICATION_ERROR_DETAILS WHERE CORRELATION_ID = ?")
          (correlation_id ∷ []) h in
      if is_empty correlation_id
      then ((true, some (wrap (lit "cannot extract correlation ID from error message: ") e)), h)
      else (verdict_of_scan correlation_id (bind row scan_code), h')

  -- The `switch` on the code of the driver's error.
  abbrev verdict_of_driver : Err → Option ℕ → Pair History Bool
  verdict_of_driver e none h = ((true, some e), h)
  verdict_of_driver e (some code) h =
      if code == 20
      then ((true, some (auth validity_period)), h)
      else if code == 415
      then ((true, some (auth user_deactivated)), h)
      else if code == 416
      then ((true, some (auth user_locked)), h)
      else if code == 10
      then handle_authentication_error e h
      else ((true, some e), h)

  abbrev verdict_of_exec : Result (Unit {0}) → Pair History Bool
  verdict_of_exec (ok _) h = ((true, none), h)
  verdict_of_exec (err e) h = verdict_of_driver e (as_driver e) h

  unfoldable pub validate_credentials : Text → Text → Pair History Bool
  unfolding exec handle_authentication_error as_driver
  validate_credentials username password h =
      let (r, h') =
        exec db (lit "VALIDATE USER " ++ username ++ lit " PASSWORD \"" ++ password ++ lit "\"")
          h in
      verdict_of_exec r h'

  abbrev up_to_date_of : Verdict → Option Bool × Option Err
  up_to_date_of (valid, none) = (some valid, none)
  up_to_date_of (valid, some e) = (none, some e)

  unfoldable pub query_password_authentication :
      UserParameters → Bool → Text → Pair History (Option Bool)
  unfolding validate_credentials
  query_password_authentication parameters is_password_enabled password h =
      let (verdict, h') = validate_credentials parameters.username password h in
      if wants_password parameters.authentication.password
      then (if is_password_enabled then (up_to_date_of verdict, h') else ((some false, none), h))
      else if is_password_enabled
      then ((some false, none), h)
      else ((none, none), h)
