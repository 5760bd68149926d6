-- ===== src/Clients/User/Read.antt =====
-- internal/clients/hana/user/user_client.go: Read.
pub mod Laws
use crossplane_provider_hana.Prelude.{
  Bool, false, Option, none, some, List, [], ◌∷◌, if◌then◌else◌, ℕ_eq,
}
use crossplane_provider_hana.Text.{Text, lit, text_eq}
use crossplane_provider_hana.Errors.{Err, Result, ok, err, wrap, is_no_rows, bind}
use crossplane_provider_hana.Sql.{
  Database, History, query, query_row, Rows, Row, scan_text, scan_bool, scan_time, scan_null_text,
  wrong_columns,
}
use crossplane_provider_hana.GoMap.{GoMap}
use crossplane_provider_hana.Apis.{UserParameters, UserObservation, X509UserMapping}
use crossplane_provider_hana.Privilege.Queries.{
  query_privileges, query_roles, Pair, user, collect_rows,
}
use crossplane_provider_hana.Clients.Usergroup.{parameter_rows}
use crossplane_provider_hana.Clients.User.Credentials.{query_password_authentication}

abbrev scan_user : Row → Result UserObservation
scan_user (username ∷ usergroup ∷ created ∷ changed ∷ restricted ∷ lifetime ∷ enabled ∷ []) =
    bind (scan_text username) λ n. bind (scan_text usergroup) λ g. bind (scan_time created) λ c.
      bind (scan_time changed) λ p. bind (scan_bool restricted) λ r. bind (scan_bool lifetime) λ l.
        bind (scan_bool enabled) λ e. ok (record {
          username = some n;
          restricted_user = some r;
          x509_providers = [];
          last_password_change_time = p;
          password_up_to_date = none;
          created_at = c;
          privileges = [];
          roles = [];
          parameters = [];
          usergroup = some g;
          is_password_lifetime_check_enabled = some l;
          is_password_enabled = some e;
        })
scan_user row = err wrong_columns

abbrev pub no_user : UserObservation
no_user = record {
  username = none;
  restricted_user = none;
  x509_providers = [];
  last_password_change_time = [];
  password_up_to_date = none;
  created_at = [];
  privileges = [];
  roles = [];
  parameters = [];
  usergroup = none;
  is_password_lifetime_check_enabled = none;
  is_password_enabled = none;
}

abbrev subject_or_any : Option Text → Text
subject_or_any none = lit "ANY"
subject_or_any (some subject) = subject

abbrev scan_mapping : Row → Result X509UserMapping
scan_mapping (provider ∷ subject ∷ []) = bind (scan_text provider) λ p.
    bind (scan_null_text subject)
      λ s. ok (record { name = p; provider_ref = none; subject_name = subject_or_any s })
scan_mapping row = err wrong_columns

abbrev pub parameters_of : Result Rows → GoMap Text Text × Option Err
parameters_of (ok r) = (parameter_rows r.rows [], r.broken)
parameters_of (err e) = ([], some e)

-- A failure leaves no mapping.
abbrev all_or_nothing : List X509UserMapping × Option Err → List X509UserMapping × Option Err
all_or_nothing (found, none) = (found, none)
all_or_nothing (found, some e) = ([], some e)

abbrev mappings_of : Result Rows → List X509UserMapping × Option Err
mappings_of (ok r) = all_or_nothing (collect_rows scan_mapping r.rows r.broken)
mappings_of (err e) = ([], some (wrap (lit "failed to query x509 providers: ") e))

-- A step of Read: its value is stored, and its error, labelled, ends the function.
abbrev stop_or_next :
    (Err → Err)
    → UserObservation
    → Option Err
    → (UserObservation → Pair History UserObservation)
    → Pair History UserObservation
stop_or_next label observed none next h = next observed h
stop_or_next label observed (some e) next h = ((observed, some (label e)), h)

abbrev fill :
    {A : Type 0}
    → Pair History A
    → (A → UserObservation)
    → (Err → Err)
    → (UserObservation → Pair History UserObservation)
    → Pair History UserObservation
fill m put label next h = let ((a, e), h') = m h in stop_or_next label (put a) e next h'

abbrev enabled_of : Option Bool → Bool
enabled_of none = false
enabled_of (some b) = b

module _ (db : Database) where
  unfoldable pub query_parameters : Text → Pair History (GoMap Text Text)
  unfolding query parameter_rows
  query_parameters username h =
      let (answer, h') =
        query db
          (lit "SELECT USER_NAME, PARAMETER, VALUE FROM SYS.USER_PARAMETERS WHERE USER_NAME = ?")
          (username ∷ []) h in
      (parameters_of answer, h')

  unfoldable pub query_x509_providers : Text → Pair History (List X509UserMapping)
  unfolding query collect_rows scan_text scan_null_text
  query_x509_providers username h =
      let (answer, h') =
        query db
          (lit
            "SELECT X509_PROVIDER_NAME, SUBJECT_NAME FROM X509_USER_MAPPINGS WHERE USER_NAME = ?")
          (username ∷ []) h in
      (mappings_of answer, h')

  -- What Read does once the user's row is there.
  unfoldable pub read_more : UserParameters → Text → UserObservation → Pair History UserObservation
  unfolding query_parameters query_privileges query_roles query_password_authentication
      query_x509_providers
  read_more parameters password observed =
      fill (query_parameters parameters.username) (λ x. record observed { parameters = x }) (λ e. e)
        λ o1.
          fill (query_privileges db parameters.username user) (λ x. record o1 { privileges = x })
            (wrap (lit "failed to query privileges: "))
            λ o2.
              fill (query_roles db parameters.username user) (λ x. record o2 { roles = x })
                (wrap (lit "failed to query roles: "))
                λ o3.
                  fill
                    (query_password_authentication db parameters
                      (enabled_of observed.is_password_enabled) password)
                    (λ x. record o3 { password_up_to_date = x }) (λ e. e)
                    λ o4.
                      fill (query_x509_providers parameters.username)
                        (λ x. record o4 { x509_providers = x }) (λ e. e) λ o5 h. ((o5, none), h)

  abbrev pub after_row :
      UserParameters → Text → Result UserObservation → Pair History UserObservation
  after_row parameters password (ok observed) h = read_more parameters password observed h
  after_row parameters password (err e) h = ((no_user, if is_no_rows e then none else some e), h)

  unfoldable pub read : UserParameters → Text → Pair History UserObservation
  unfolding query_row read_more is_no_rows scan_text scan_time scan_bool
  read parameters password h =
      let (row, h') =
        query_row db
          (lit
            "SELECT USER_NAME, USERGROUP_NAME, CREATE_TIME, LAST_PASSWORD_CHANGE_TIME, IS_RESTRICTED, IS_PASSWORD_LIFETIME_CHECK_ENABLED, IS_PASSWORD_ENABLED FROM SYS.USERS WHERE USER_NAME = ?")
          (parameters.username ∷ []) h in
      after_row parameters password (bind row scan_user) h'
