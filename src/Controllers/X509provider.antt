-- ===== src/Controllers/X509provider.antt =====
-- internal/controller/x509provider/reconciler.go: the external client of X.509 providers.
use crossplane_provider_hana.Prelude.{Bool, true, false, ◌&&◌, Option, none, some, ◌==◌, list_eq}
use crossplane_provider_hana.Text.{Text, text_eq}
use crossplane_provider_hana.Exec.{Exec, pure, ◌>>=◌, ◌>>◌}
use crossplane_provider_hana.Sql.{Database}
use crossplane_provider_hana.Goroutines.{Schedule}
use crossplane_provider_hana.Apis.{
  X509ProviderParameters, X509ProviderObservation, available, deleting,
}
use crossplane_provider_hana.Clients.X509provider as Client
use crossplane_provider_hana.Controllers.{
  Managed, Annotated, ExternalObservation, on_db, set_ready, set_status, get_status, get_spec,
}

abbrev pub X509ProviderResource : Type 0
X509ProviderResource = Managed X509ProviderParameters (Annotated X509ProviderObservation)

abbrev pub Handler : Type 0 → Type 0
Handler A = Exec X509ProviderResource A

abbrev is_issuer : Text → Option Text → Bool
is_issuer issuer none = false
is_issuer issuer (some observed) = issuer == observed

unfoldable pub is_up_to_date : X509ProviderParameters → X509ProviderObservation → Bool
is_up_to_date p o = is_issuer p.issuer o.issuer && list_eq p.matching_rules o.matching_rules

module _ (db : Database) where
  abbrev observed_provider :
      X509ProviderParameters → Option X509ProviderObservation → Handler ExternalObservation
  observed_provider parameters none =
      pure (record { resource_exists = false; resource_up_to_date = false })
  observed_provider parameters (some observed) = do
    set_status λ s. record s { at_provider = observed }
    set_ready available
    pure
        (record { resource_exists = true; resource_up_to_date = is_up_to_date parameters observed })

  unfoldable pub observe : Schedule → Handler ExternalObservation
  unfolding is_up_to_date
  observe schedule = do
    parameters ← get_spec
    observed ← on_db (Client.read db schedule parameters)
    observed_provider parameters observed

  unfoldable pub create : Handler (Unit {0})
  create = do
    parameters ← get_spec
    on_db (Client.create db parameters)
    set_status λ s. record s { external_name = some parameters.name }

  unfoldable pub update : Schedule → Handler (Unit {0})
  update schedule = do
    parameters ← get_spec
    status ← get_status
    on_db (Client.update db schedule parameters status.at_provider)

  unfoldable pub delete : Handler (Unit {0})
  delete = do parameters ← get_spec; set_ready deleting; on_db (Client.delete db parameters)
