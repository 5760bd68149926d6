-- ===== src/Clients/Certificate.antt =====
-- internal/clients/hana/certificate/certificate_client.go and certificate_helpers.go. PEM, ASN.1 and
-- the quoting of %q belong to the Go library, and are parameters.
pub mod Chain
pub mod Laws
use crossplane_provider_hana.Prelude.{
  ℕ, zero, suc, Bool, true, false, ◌&&◌, ◌||◌, not, Option, none, some, List, [], ◌∷◌, ◌++◌, map,
  ◌==◌, if◌then◌else◌, length, leb, ℕ_eq,
}
use crossplane_provider_hana.Text.{Text, lit, text_eq, is_empty, to_upper, trim_space}
use crossplane_provider_hana.Errors.{Err, Result, ok, err, other, wrap, bind, wrapping}
use crossplane_provider_hana.Exec.{Exec, pure, fail, lift, or_fail, relabel, ◌>>=◌, ◌>>◌}
use crossplane_provider_hana.Sql.{
  Sql, Database, Kind, exec, transaction, query, Rows, Row, scan_text, scan_int, wrong_columns,
}
use crossplane_provider_hana.Utils.{escape_double_quotes, escape_single_quotes}
use crossplane_provider_hana.Apis.{
  CertificateParameters, ImportedCertificate, CertificateObservation,
}

-- pem.Block
pub record Block : Type 0 where
  pub block_type : Text
  pub bytes : Text

-- The fields of an x509.Certificate that are read, as SerialNumber.String and NotBefore.Format print
-- them.
pub record X509Certificate : Type 0 where
  pub serial : Text
  pub not_before : Text

-- pem.Decode, pem.EncodeToMemory, x509.ParseCertificate and strconv.Quote
pub record Encodings : Type 0 where
  pub decode : Text → Option (Block × Text)
  pub encode_to_memory : Block → Text
  pub parse_certificate : Text → Result X509Certificate
  pub quote : Text → Text

abbrev is_identifier : ℕ → Bool
is_identifier r = (leb 65 r && leb r 90) || (leb 48 r && leb r 57) || r == 95

unfoldable pub sanitize_rune : ℕ → ℕ
sanitize_rune r = if is_identifier r then r else 95

unfoldable pub sanitize_identifier : Text → Text
unfolding to_upper sanitize_rune
sanitize_identifier s = map sanitize_rune (to_upper s)

abbrev no_certificates : List Text → Result (List Text)
no_certificates [] = err (other (lit "no certificates found in PEM chain"))
no_certificates (c ∷ cs) = ok (c ∷ cs)

module _ (e : Encodings) where
  abbrev pub checked_block : Option (Block × Text) → Result (Text × Text)
  checked_block none = err (other (lit "failed to decode PEM certificate"))
  checked_block (some (block, rest)) =
      if block.block_type == lit "CERTIFICATE"
      then ok (e.encode_to_memory block, rest)
      else err (other (lit "unexpected PEM block type " ++ e.quote block.block_type))

  -- The loop, on fuel; none where it runs out.
  unfoldable pub split_chain : ℕ → List Text → Text → Option (Result (List Text))
  unfolding trim_space is_empty
  split_chain zero certificates pem_data = none
  split_chain (suc fuel) certificates pem_data =
      if is_empty (trim_space pem_data)
      then some (no_certificates certificates)
      else elim (checked_block (e.decode pem_data)) [
        | err failure ↦ some (err failure)
        | ok (certificate, rest) ↦ split_chain fuel (certificates ++ certificate ∷ []) rest
      ]

  abbrev of_chain : Option (Result (List Text)) → Result (List Text)
  of_chain none = err (other [])
  of_chain (some r) = r

  -- A block takes characters away, so the length of the data bounds the rounds.
  unfoldable pub split_pem_chain : Text → Result (List Text)
  unfolding split_chain
  split_pem_chain pem_data = of_chain (split_chain (suc (length pem_data)) [] pem_data)

  abbrev bytes_of : Option (Block × Text) → Result Text
  bytes_of none = err (other (lit "failed to decode PEM block for name derivation"))
  bytes_of (some (block, rest)) = ok block.bytes

  unfoldable pub cert_name : Text → Text → Result Text
  unfolding sanitize_identifier
  cert_name base cert_pem = bind (bytes_of (e.decode cert_pem)) λ bytes.
      bind (relabel (wrap (lit "failed to parse x509 certificate: ")) (e.parse_certificate bytes))
        λ cert. ok (
          sanitize_identifier base
          ++ lit "_CRT_SRV_CERTIFICATE_"
          ++ cert.serial
          ++ lit "_"
          ++ cert.not_before)

abbrev scan_certificate : Row → Result ImportedCertificate
scan_certificate (id ∷ name ∷ []) =
    bind (scan_int id) λ i. bind (scan_text name) λ n. ok (record { id = some i; name = n })
scan_certificate row = err wrong_columns

unfoldable pub certificate_rows : List Row → Option Err → Result (List ImportedCertificate)
unfolding scan_int scan_text
certificate_rows [] none = ok []
certificate_rows [] (some e) = err (wrap (lit "failed reading certificate rows: ") e)
certificate_rows (row ∷ rows) broken =
    let rest = certificate_rows rows broken in
    bind (relabel (wrap (lit "failed to scan certificate: ")) (scan_certificate row))
      λ certificate. bind rest λ certificates. ok (certificate ∷ certificates)

abbrev unless_none : List ImportedCertificate → Option CertificateObservation
unless_none [] = none
unless_none (c ∷ cs) = some (record { certificates = c ∷ cs })

unfoldable pub drop_query : ImportedCertificate → Text
unfolding escape_double_quotes
drop_query cert = lit "DROP CERTIFICATE \"" ++ escape_double_quotes cert.name ++ lit "\""

unfoldable pub create_query : Text → Text → Text
unfolding escape_double_quotes escape_single_quotes
create_query name cert =
    lit "CREATE CERTIFICATE \""
    ++ escape_double_quotes name
    ++ lit "\" FROM '"
    ++ escape_single_quotes cert
    ++ lit "'"

abbrev pub of_rows : Rows → Sql (Option CertificateObservation)
of_rows rows =
    lift
      (bind (certificate_rows rows.rows rows.broken) λ certificates. ok (unless_none certificates))

module _ (db : Database) where
  abbrev pub query_certificates : CertificateParameters → Sql Rows
  query_certificates parameters = or_fail (wrap (lit "failed to query certificates: ")) (
      query db
        (lit
          "\nSELECT CERTIFICATE_ID,\n       CERTIFICATE_NAME\nFROM CERTIFICATES\nWHERE CERTIFICATE_NAME LIKE ?\nORDER BY CERTIFICATE_NAME\n")
        ((sanitize_identifier parameters.name ++ lit "_CRT_SRV_CERTIFICATE_%") ∷ []))

  unfoldable pub read : CertificateParameters → Sql (Option CertificateObservation)
  unfolding query sanitize_identifier certificate_rows
  read parameters = query_certificates parameters >>= of_rows

  -- The deferred Rollback, where the function's variable err is set at its end.
  abbrev pub rollback_on_error : Result (Unit {0}) → Sql (Unit {0})
  rollback_on_error (ok u) h = (ok u, h)
  rollback_on_error (err e) h = (err e, (transaction db Kind.rollback h).1)

  abbrev pub deferring : Sql (Unit {0}) → Sql (Unit {0})
  deferring m h = rollback_on_error (m h).0 (m h).1

module _ (db : Database) (e : Encodings) where
  abbrev pub derived_name : Text → Text → Sql Text
  derived_name base cert =
      or_fail (wrap (lit "failed to derive certificate name: ")) (lift (cert_name e base cert))

  abbrev pub create_named : Text → Text → Sql (Unit {0})
  create_named cert name =
      or_fail (wrap (lit "failed to create certificate " ++ e.quote name ++ lit ": "))
        (exec db (create_query name cert))

  -- The loop of Create. It declares an err of its own, which the deferred function does not see.
  unfoldable pub create_each : Text → List Text → Sql (Unit {0})
  unfolding exec cert_name create_query
  create_each base [] = pure tt
  create_each base (cert ∷ certificates) = do
    name ← derived_name base cert
    create_named cert name
    create_each base certificates

  unfoldable pub create : CertificateParameters → Text → Sql (Unit {0})
  unfolding split_pem_chain create_each transaction
  create parameters certificate_pem = do
    certificates ← lift (split_pem_chain e certificate_pem)
    or_fail (wrap (lit "failed to begin transaction: ")) (transaction db Kind.begin)
    create_each parameters.name certificates
    deferring db (
        or_fail (wrap (lit "failed to commit certificate transaction: "))
          (transaction db Kind.commit))

  -- The loop of Delete, which assigns the function's err.
  unfoldable pub drop_each : List ImportedCertificate → Sql (Unit {0})
  unfolding exec drop_query
  drop_each [] = pure tt
  drop_each (cert ∷ certificates) =
      or_fail (wrap (lit "failed to drop certificate " ++ e.quote cert.name ++ lit ": "))
        (exec db (drop_query cert))
      >> drop_each certificates

  -- Delete from BeginTx on.
  unfoldable pub drop_all : List ImportedCertificate → Sql (Unit {0})
  unfolding drop_each transaction
  drop_all certificates = do
    or_fail (wrap (lit "failed to begin transaction: ")) (transaction db Kind.begin)
    deferring db (
        drop_each certificates
        >> or_fail (wrap (lit "failed to commit certificate delete transaction: "))
            (transaction db Kind.commit))

  abbrev pub drop_observed : Option CertificateObservation → Sql (Unit {0})
  drop_observed none = pure tt
  drop_observed (some observed) = drop_all observed.certificates

  unfoldable pub delete : CertificateParameters → Sql (Unit {0})
  unfolding read drop_all
  delete parameters = do
    observed ←
        or_fail (wrap (lit "failed to read certificates before delete: ")) (read db parameters)
    drop_observed observed
