-- ===== src/Clients/Pse.antt =====
-- internal/clients/hana/personalsecurityenvironment/personalsecurityenvironment_client.go
pub mod Laws
use crossplane_provider_hana.Prelude.{
  ℕ, Bool, true, false, Option, none, some, List, [], ◌∷◌, ◌++◌, map, ◌==◌, if◌then◌else◌,
}
use crossplane_provider_hana.Text.{Text, lit, text_eq, is_empty, join}
use crossplane_provider_hana.Numbers.{ℤ, itoa}
use crossplane_provider_hana.Errors.{Err, Result, ok, err, other, wrap, wrapping, is_no_rows, bind}
use crossplane_provider_hana.Exec.{relabel, ◌>>=◌, ◌>>◌}
use crossplane_provider_hana.Sql.{
  Sql, Database, exec, Rows, Row, scan_text, scan_int, first_row, wrong_columns,
}
use crossplane_provider_hana.Goroutines.{Task, Schedule, go, wait, send_all}
use crossplane_provider_hana.Clients.X509provider.{scan_one}
use crossplane_provider_hana.Apis.{
  CertificateRef, PersonalSecurityEnvironmentParameters, PersonalSecurityEnvironmentObservation,
}

-- What a goroutine writes into the observation.
abbrev Write : Type 0
Write = PersonalSecurityEnvironmentObservation → PersonalSecurityEnvironmentObservation

abbrev no_pse : PersonalSecurityEnvironmentObservation
no_pse = record { name = []; x509_provider_name = []; certificate_refs = [] }

abbrev row_error : Err → Err
row_error = wrap (lit "error querying row: ")

unfoldable pub select_pse : Text → Task Write
unfolding scan_text
select_pse identifier =
    Task.ask (lit "SELECT NAME FROM PSES WHERE NAME = ? AND PURPOSE = 'X509'") (identifier ∷ [])
      λ answer. Task.done (
        bind (relabel row_error (bind (first_row answer) scan_one))
          λ name. ok λ o. record o { name = name })

abbrev scan_certificate : Row → Result CertificateRef
scan_certificate (id ∷ name ∷ []) =
    bind (scan_int id) λ i. bind (scan_text name) λ n. ok (record { id = some i; name = some n })
scan_certificate row = err wrong_columns

unfoldable pub certificate_rows : List Row → Option Err → Result (List CertificateRef)
unfolding scan_int scan_text
certificate_rows [] none = ok []
certificate_rows [] (some e) = err e
certificate_rows (row ∷ rows) broken =
    let rest = certificate_rows rows broken in
    bind (scan_certificate row) λ ref. bind rest λ refs. ok (ref ∷ refs)

unfoldable pub select_pse_certificates : Text → Task Write
unfolding certificate_rows
select_pse_certificates identifier =
    Task.ask
      (lit "SELECT CERTIFICATE_ID, CERTIFICATE_NAME FROM PSE_CERTIFICATES WHERE PSE_NAME = ?")
      (identifier ∷ [])
      λ answer. Task.done (
        bind answer λ r.
          bind (certificate_rows r.rows r.broken)
            λ refs. ok λ o. record o { certificate_refs = refs })

abbrev purpose_found : Result Text → Result Write
purpose_found (ok provider) = ok λ o. record o { x509_provider_name = provider }
purpose_found (err e) =
    if is_no_rows e then ok (λ o. record o { x509_provider_name = [] }) else err (row_error e)

unfoldable pub select_pse_purpose : Text → Task Write
unfolding scan_text is_no_rows
select_pse_purpose identifier =
    Task.ask
      (lit "SELECT PURPOSE_OBJECT FROM PSE_PURPOSE_OBJECTS WHERE PSE_NAME = ? AND PURPOSE = 'X509'")
      (identifier ∷ []) λ answer. Task.done (purpose_found (bind (first_row answer) scan_one))

-- The receives of Read: a PSE that is not found is none, whatever the other two channels hold.
abbrev received : List (Result Write) → Result (Option PersonalSecurityEnvironmentObservation)
received (err e ∷ results) = if is_no_rows e then ok none else err e
received (ok write_name ∷ certificates ∷ purpose ∷ []) = bind certificates λ write_refs.
    bind purpose λ write_purpose. ok (some (write_purpose (write_refs (write_name no_pse))))
received results = ok none

abbrev pub same : Err → Err
same e = e

unfoldable pub set_purpose_query : Text → Text → Text
set_purpose_query identifier provider =
    lit "SET PSE " ++ identifier ++ lit " PURPOSE X509 FOR PROVIDER " ++ provider

unfoldable pub set_pse_purpose : Text → Text → Task (Unit {0})
unfolding send_all set_purpose_query is_empty
set_pse_purpose identifier provider =
    if is_empty provider
    then Task.done (err (other (lit "provider name is empty")))
    else send_all same (set_purpose_query identifier provider ∷ [])

-- The loop over the references: the identifiers, and the names of those without one.
unfoldable pub split_refs : List CertificateRef → Result (List Text × List Text)
unfolding itoa
split_refs [] = ok ([], [])
split_refs (ref ∷ refs) =
    let rest = split_refs refs in
    elim ref.id [
      | some id ↦ bind rest λ r. ok (itoa id ∷ r.0, r.1)
      | none ↦ elim ref.name [
        | some name ↦ bind rest λ r. ok (r.0, name ∷ r.1)
        | none ↦ err (
            other (
              lit
                "failed to add certificate: certificate reference must have either id or name set"))
      ]
    ]

abbrev unless_nil : List Text → Text → List Text
unless_nil [] query = []
unless_nil (x ∷ xs) query = query ∷ []

unfoldable pub certificate_query : Bool → Text → Text → Text
certificate_query add pse_name certificates =
    lit "ALTER PSE "
    ++ pse_name
    ++ (if add then lit " ADD CERTIFICATE " else lit " DROP CERTIFICATE ")
    ++ certificates

unfoldable pub certificate_queries : Bool → Text → List CertificateRef → Result (List Text)
unfolding split_refs certificate_query join
certificate_queries add pse_name refs = bind (split_refs refs) λ r. ok (
    unless_nil r.0 (certificate_query add pse_name (join (lit ", ") r.0))
    ++ unless_nil r.1
        (certificate_query add pse_name (lit "\"" ++ join (lit "\", \"") r.1 ++ lit "\"")))

abbrev pub update_failure : Err → Err
update_failure = wrapping (lit "failed to update certificates: ")

abbrev pub certificates_task : Result (List Text) → Task (Unit {0})
certificates_task (ok queries) = send_all update_failure queries
certificates_task (err e) = Task.done (err e)

unfoldable pub update_certificates_for_pse : Bool → Text → List CertificateRef → Task (Unit {0})
unfolding certificate_queries send_all wrapping
update_certificates_for_pse add pse_name refs =
    certificates_task (certificate_queries add pse_name refs)

-- The channels of Create and of Update start with that of the purpose, where there is a provider.
unfoldable pub with_purpose : Text → Text → List (Task (Unit {0})) → List (Task (Unit {0}))
unfolding set_pse_purpose is_empty
with_purpose pse_name provider tasks =
    if is_empty provider then tasks else set_pse_purpose pse_name provider ∷ tasks

module _ (db : Database) where
  unfoldable pub read :
      Schedule
      → PersonalSecurityEnvironmentParameters
      → Sql (Option PersonalSecurityEnvironmentObservation)
  unfolding go select_pse select_pse_certificates select_pse_purpose is_no_rows
  read schedule parameters h =
      let (rs, h') =
        go db schedule
          (select_pse parameters.name
            ∷ select_pse_certificates parameters.name
            ∷ select_pse_purpose parameters.name
            ∷ [])
          h in
      (received rs, h')

  unfoldable pub create : Schedule → PersonalSecurityEnvironmentParameters → Text → Sql (Unit {0})
  unfolding exec wait with_purpose update_certificates_for_pse
  create schedule parameters provider = do
    exec db (lit "CREATE PSE " ++ parameters.name)
    wait db schedule (
        with_purpose parameters.name provider
          (update_certificates_for_pse true parameters.name parameters.certificate_refs ∷ []))

  unfoldable pub update :
      Schedule → Text → List CertificateRef → List CertificateRef → Text → Sql (Unit {0})
  unfolding wait with_purpose update_certificates_for_pse
  update schedule pse_name to_add to_remove provider = wait db schedule (
      with_purpose pse_name provider (
        update_certificates_for_pse true pse_name to_add
        ∷ update_certificates_for_pse false pse_name to_remove
        ∷ []))

  unfoldable pub delete : PersonalSecurityEnvironmentParameters → Sql (Unit {0})
  unfolding exec
  delete parameters = exec db (lit "DROP PSE " ++ parameters.name)
