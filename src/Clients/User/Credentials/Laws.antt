-- ===== src/Clients/User/Credentials/Laws.antt =====
-- When a password counts as up to date.
use crossplane_provider_hana.Prelude.{
  Bool, true, none, some, [], ◌∷◌, ◌++◌, ℕ_eq, ◌≡◌, arith, Option-cases, inl, inr,
}
use crossplane_provider_hana.Text.{Text, lit, text_eq}
use crossplane_provider_hana.Errors.{Err}
use crossplane_provider_hana.Sql.{Database, History, exec, plain}
use crossplane_provider_hana.Apis.{UserParameters}
use crossplane_provider_hana.Clients.User.Credentials.{
  validate_credentials, query_password_authentication, handle_authentication_error, verdict_of_code,
}

-- The statement that asks the database whether a password is the user's.
abbrev pub validate_statement : Text → Text → Text
validate_statement username password =
    lit "VALIDATE USER " ++ username ++ lit " PASSWORD \"" ++ password ++ lit "\""

module _ (db : Database) where
  -- An authentication failure never comes back as a valid password without an error.
  handle_not_valid :
      (e : Err) (h : History) → ¬ ((handle_authentication_error db e h).0 ≡ (true, none))
  unfolding handle_authentication_error verdict_of_code
  handle_not_valid e h = λ bad. ground arith

  -- A password that is reported as up to date without an error is one for which the database has
  -- accepted VALIDATE USER; no authentication failure leads there.
  pub password_up_to_date_sound :
      (parameters : UserParameters) (enabled : Bool) (password : Text) (h : History)
      → (query_password_authentication db parameters enabled password h).0 ≡ (some true, none)
      → db.on_exec h (plain (validate_statement parameters.username password)) ≡ none
  unfolding query_password_authentication validate_credentials exec
  password_up_to_date_sound parameters enabled password h e =
      elim (Option-cases (db.on_exec h (plain (validate_statement parameters.username password)))) [
        | inl fine ↦ fine
        | inr (x, bad) ↦ absurd (
            ground (
              arith,
              handle_not_valid x
                  (h ++ plain (validate_statement parameters.username password) ∷ []),
            ))
      ]
