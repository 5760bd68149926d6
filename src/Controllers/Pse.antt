-- ===== src/Controllers/Pse.antt =====
-- internal/controller/personalsecurityenvironment/reconciler.go: the external client of personal
-- security environments. The name that an X509Provider resource gives is a parameter.
use crossplane_provider_hana.Prelude.{
  Bool, true, false, ◌&&◌, ◌||◌, not, Option, none, some, List, [], ◌∷◌, ◌==◌, if◌then◌else◌,
  length, nat_eq,
}
use crossplane_provider_hana.Text.{Text, lit, text_eq, is_empty}
use crossplane_provider_hana.Numbers.{ℤ, ℤ_eq}
use crossplane_provider_hana.Errors.{Result, ok, err, other, wrapping}
use crossplane_provider_hana.Exec.{Exec, pure, lift, ◌>>=◌, ◌>>◌, or_fail}
use crossplane_provider_hana.Sql.{Database}
use crossplane_provider_hana.Goroutines.{Schedule}
use crossplane_provider_hana.Apis.{
  CertificateRef, X509ProviderRef, PersonalSecurityEnvironmentParameters,
  PersonalSecurityEnvironmentObservation, available, deleting,
}
use crossplane_provider_hana.Clients.Pse as Client
use crossplane_provider_hana.Controllers.{
  Managed, Annotated, ExternalObservation, on_db, set_ready, set_status, get_status, get_spec,
}

abbrev pub PseResource : Type 0
PseResource =
    Managed PersonalSecurityEnvironmentParameters (Annotated PersonalSecurityEnvironmentObservation)

abbrev pub Handler : Type 0 → Type 0
Handler A = Exec PseResource A

abbrev same_id : Option ℤ → Option ℤ → Bool
same_id (some i) (some j) = i == j
same_id i j = false

abbrev same_name : Option Text → Option Text → Bool
same_name (some m) (some n) = not (is_empty m) && m == n
same_name m n = false

-- True where the references agree in the identifier or in the name.
unfoldable pub cert_different : CertificateRef → CertificateRef → Bool
unfolding is_empty
cert_different cert_a cert_b = same_id cert_a.id cert_b.id || same_name cert_a.name cert_b.name

-- The inner loop.
unfoldable pub is_found : CertificateRef → List CertificateRef → Bool
unfolding cert_different
is_found cert_a [] = false
is_found cert_a (cert_b ∷ b) =
    let rest = is_found cert_a b in if cert_different cert_a cert_b then true else rest

unfoldable pub cert_list_difference :
    List CertificateRef → List CertificateRef → List CertificateRef
unfolding is_found
cert_list_difference [] b = []
cert_list_difference (cert_a ∷ a) b =
    let rest = cert_list_difference a b in if is_found cert_a b then rest else cert_a ∷ rest

unfoldable pub is_up_to_date :
    PersonalSecurityEnvironmentParameters → PersonalSecurityEnvironmentObservation → Text → Bool
unfolding cert_list_difference
is_up_to_date p o provider =
    nat_eq (length p.certificate_refs) (length o.certificate_refs)
    && nat_eq (length (cert_list_difference p.certificate_refs o.certificate_refs)) 0
    && provider == o.x509_provider_name
    && p.name == o.name

-- kube.Get of an X509Provider gives the name in its specification.
unfoldable pub get_x509_provider_name : (Text → Result Text) → Option X509ProviderRef → Result Text
unfolding is_empty
get_x509_provider_name kube none = ok []
get_x509_provider_name kube (some ref) = elim ref.provider_ref [
  | some resource ↦ kube resource
  | none ↦
      if not (is_empty ref.name)
      then ok ref.name
      else err (other (lit "X509ProviderRef must have either ProviderRef or Name specified"))
]

module _ (db : Database) (kube : Text → Result Text) where
  abbrev provider_of : PersonalSecurityEnvironmentParameters → Handler Text
  provider_of parameters =
      or_fail (wrapping (lit "failed to get provider for pse: "))
        (lift (get_x509_provider_name kube parameters.x509_provider_ref))

  abbrev observed_pse :
      PersonalSecurityEnvironmentParameters
      → Option PersonalSecurityEnvironmentObservation
      → Handler ExternalObservation
  observed_pse parameters none =
      pure (record { resource_exists = false; resource_up_to_date = false })
  observed_pse parameters (some observed) = do
    provider ← provider_of parameters
    set_status λ s. record s { at_provider = observed }
    set_ready available
    set_status λ s. record s { external_name = some observed.name }
    pure (record {
      resource_exists = true;
      resource_up_to_date = is_up_to_date parameters observed provider;
    })

  unfoldable pub observe : Schedule → Handler ExternalObservation
  unfolding is_up_to_date get_x509_provider_name wrapping
  observe schedule = do
    parameters ← get_spec
    observed ← on_db (Client.read db schedule parameters)
    observed_pse parameters observed

  unfoldable pub create : Schedule → Handler (Unit {0})
  unfolding get_x509_provider_name wrapping
  create schedule = do
    parameters ← get_spec
    provider ← provider_of parameters
    on_db (Client.create db schedule parameters provider)

  -- A provider that has not changed is not set again.
  unfoldable pub update : Schedule → Handler (Unit {0})
  unfolding cert_list_difference get_x509_provider_name wrapping
  update schedule = do
    parameters ← get_spec
    status ← get_status
    provider ← provider_of parameters
    on_db (
        Client.update db schedule parameters.name
          (cert_list_difference parameters.certificate_refs status.at_provider.certificate_refs)
          (cert_list_difference status.at_provider.certificate_refs parameters.certificate_refs)
          (if provider == status.at_provider.x509_provider_name then [] else provider))
    set_status λ s. record s {
      at_provider = record (s.at_provider) { certificate_refs = parameters.certificate_refs };
    }

  unfoldable pub delete : Handler (Unit {0})
  delete = do parameters ← get_spec; set_ready deleting; on_db (Client.delete db parameters)
