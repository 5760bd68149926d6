-- ===== src/Clients/X509provider.antt =====
-- internal/clients/hana/x509provider/x509provider_client.go
use crossplane_provider_hana.Prelude.{
  Bool, true, Option, none, some, List, [], ◌∷◌, ◌++◌, ◌==◌, if◌then◌else◌, list_eq,
}
use crossplane_provider_hana.Text.{Text, lit, text_eq, is_empty, join}
use crossplane_provider_hana.Errors.{Err, Result, ok, err, is_no_rows, bind, deref}
use crossplane_provider_hana.Exec.{lift, ◌>>=◌}
use crossplane_provider_hana.Sql.{Sql, Database, exec, Row, scan_text, first_row, wrong_columns}
use crossplane_provider_hana.Goroutines.{Task, Schedule, go, wait, send_all}
use crossplane_provider_hana.Apis.{X509ProviderParameters, X509ProviderObservation}

-- What a goroutine writes into the observation.
abbrev Write : Type 0
Write = X509ProviderObservation → X509ProviderObservation

abbrev no_provider : X509ProviderObservation
no_provider = record { name = none; issuer = none; matching_rules = []; priority = none }

abbrev pub scan_one : Row → Result Text
scan_one (cell ∷ []) = scan_text cell
scan_one row = err wrong_columns

-- What readIssuer does with the outcome of Scan.
abbrev issuer_found : Text → Result Text → Result Write
issuer_found name (ok issuer) = ok λ o. record o { name = some name; issuer = some issuer }
issuer_found name (err e) = if is_no_rows e then ok (λ o. o) else err e

unfoldable pub read_issuer : Text → Task Write
unfolding scan_text is_no_rows
read_issuer name =
    Task.ask (lit "SELECT ISSUER_NAME FROM X509_PROVIDERS WHERE X509_PROVIDER_NAME = ?") (name ∷ [])
      λ answer. Task.done (issuer_found name (bind (first_row answer) scan_one))

unfoldable pub rule_rows : List Row → Option Err → Result (List Text)
unfolding scan_text
rule_rows [] none = ok []
rule_rows [] (some e) = err e
rule_rows (row ∷ rows) broken =
    let rest = rule_rows rows broken in
    bind (scan_one row) λ rule. bind rest λ rules. ok (rule ∷ rules)

unfoldable pub read_matching_rules : Text → Task Write
unfolding rule_rows
read_matching_rules name =
    Task.ask
      (lit
        "SELECT MATCHING_RULE FROM X509_PROVIDER_RULES WHERE X509_PROVIDER_NAME = ? ORDER BY POSITION ASC")
      (name ∷ [])
      λ answer. Task.done (
        bind answer λ r.
          bind (rule_rows r.rows r.broken) λ rules. ok λ o. record o { matching_rules = rules })

abbrev no_name : Option Text → Bool
no_name none = true
no_name (some name) = is_empty name

-- The receives of Read; where no issuer was found, the second channel is not read.
abbrev received : Text → List (Result Write) → Result (Option X509ProviderObservation)
received name (issuer ∷ rules ∷ []) = bind issuer λ write_issuer.
    if no_name (write_issuer no_provider).name
    then ok none
    else bind rules λ write_rules.
      ok (some (record (write_rules (write_issuer no_provider)) { name = some name }))
received name results = ok none

abbrev same : Err → Err
same e = e

unfoldable pub update_issuer : Text → Text → Task (Unit {0})
unfolding send_all
update_issuer name issuer =
    send_all same
      ((lit "ALTER X509 PROVIDER " ++ name ++ lit " SET ISSUER '" ++ issuer ++ lit "'") ∷ [])

unfoldable pub rules_query : Text → List Text → Text
unfolding join
rules_query name [] = lit "ALTER X509 PROVIDER " ++ name ++ lit " UNSET MATCHING RULES"
rules_query name (rule ∷ rules) =
    lit "ALTER X509 PROVIDER "
    ++ name
    ++ lit " SET MATCHING RULES '"
    ++ join (lit "', '") (rule ∷ rules)
    ++ lit "'"

unfoldable pub update_matching_rules : Text → List Text → Task (Unit {0})
unfolding send_all rules_query
update_matching_rules name rules = send_all same (rules_query name rules ∷ [])

-- The goroutines of Update, or the nil on the channel of one that is not needed.
unfoldable pub update_tasks : X509ProviderParameters → Text → List Text → List (Task (Unit {0}))
unfolding update_issuer update_matching_rules send_all
update_tasks parameters issuer matching_rules =
    (if parameters.issuer == issuer
      then Task.done (ok tt)
      else update_issuer parameters.name parameters.issuer)
    ∷ (if list_eq parameters.matching_rules matching_rules
        then Task.done (ok tt)
        else update_matching_rules parameters.name parameters.matching_rules)
    ∷ []

module _ (db : Database) where
  unfoldable pub read : Schedule → X509ProviderParameters → Sql (Option X509ProviderObservation)
  unfolding go read_issuer read_matching_rules is_empty
  read schedule parameters h =
      let (rs, h') =
        go db schedule (read_issuer parameters.name ∷ read_matching_rules parameters.name ∷ []) h in
      (received parameters.name rs, h')

  unfoldable pub create : X509ProviderParameters → Sql (Unit {0})
  unfolding exec
  create parameters = exec db (
      lit "CREATE X509 PROVIDER "
      ++ parameters.name
      ++ lit " WITH ISSUER '"
      ++ parameters.issuer
      ++ lit "'")

  -- The observation that Update writes is a copy which its caller drops.
  unfoldable pub update :
      Schedule → X509ProviderParameters → X509ProviderObservation → Sql (Unit {0})
  unfolding wait update_tasks
  update schedule parameters observation = do
    issuer ← lift (deref observation.issuer)
    wait db schedule (update_tasks parameters issuer observation.matching_rules)

  unfoldable pub delete : X509ProviderParameters → Sql (Unit {0})
  unfolding exec
  delete parameters = exec db (lit "DROP X509 PROVIDER " ++ parameters.name)
