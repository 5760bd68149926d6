-- ===== src/Controllers/Certificate.antt =====
-- internal/controller/certificate/reconciler.go: the external client of certificates. What
-- kube.Get answers for a secret is a parameter.
use crossplane_provider_hana.Prelude.{true, false, Option, none, some, ◌++◌}
use crossplane_provider_hana.Text.{Text, lit, text_eq}
use crossplane_provider_hana.Errors.{Result, ok, err, other, wrap, bind}
use crossplane_provider_hana.Exec.{Exec, pure, lift, relabel, ◌>>=◌, ◌>>◌, or_fail}
use crossplane_provider_hana.Sql.{Database}
use crossplane_provider_hana.GoMap.{GoMap, lookup}
use crossplane_provider_hana.Apis.{
  CertificateParameters, CertificateObservation, SecretKeySelector, available, creating, deleting,
}
use crossplane_provider_hana.Clients.Certificate as Client
use crossplane_provider_hana.Clients.Certificate.{Encodings}
use crossplane_provider_hana.Controllers.{
  Managed, ExternalObservation, on_db, set_ready, set_status, get_spec,
}

abbrev pub CertificateResource : Type 0
CertificateResource = Managed CertificateParameters CertificateObservation

abbrev pub Handler : Type 0 → Type 0
Handler A = Exec CertificateResource A

module _ (e : Encodings) (kube : Text → Text → Result (GoMap Text Text)) where
  abbrev key_of : SecretKeySelector → GoMap Text Text → Result Text
  key_of ref secret_data = elim (lookup secret_data ref.key) [
    | some pem ↦ ok pem
    | none ↦ err (
        other (
          lit "secret "
          ++ ref.namespace
          ++ lit "/"
          ++ ref.name
          ++ lit " does not contain key "
          ++ e.quote ref.key))
  ]

  unfoldable pub get_certificate_pem : Option SecretKeySelector → Result Text
  unfolding lookup
  get_certificate_pem none = err (other (lit "certificateSecretRef is required"))
  get_certificate_pem (some ref) =
      bind
        (relabel
          (wrap (lit "cannot get secret " ++ ref.namespace ++ lit "/" ++ ref.name ++ lit ": "))
          (kube ref.namespace ref.name))
        (key_of ref)

module _ (db : Database) where
  abbrev observed_certificates : Option CertificateObservation → Handler ExternalObservation
  observed_certificates none =
      pure (record { resource_exists = false; resource_up_to_date = false })
  observed_certificates (some observed) = do
    set_status λ s. record s { certificates = observed.certificates }
    set_ready available
    pure (record { resource_exists = true; resource_up_to_date = true })

  unfoldable pub observe : Handler ExternalObservation
  observe = do
    parameters ← get_spec
    observed ←
        or_fail (wrap (lit "cannot read certificate from HANA: "))
          (on_db (Client.read db parameters))
    observed_certificates observed

  unfoldable pub create : Encodings → (Text → Text → Result (GoMap Text Text)) → Handler (Unit {0})
  unfolding get_certificate_pem
  create e kube = do
    set_ready creating
    parameters ← get_spec
    pem ←
        or_fail (wrap (lit "cannot get certificate Secret: "))
          (lift (get_certificate_pem e kube parameters.certificate_secret_ref))
    or_fail (wrap (lit "cannot create certificate in HANA: "))
        (on_db (Client.create db e parameters pem))

  -- Certificates are not altered.
  unfoldable pub update : Handler (Unit {0})
  update = pure tt

  unfoldable pub delete : Encodings → Handler (Unit {0})
  delete e = do
    set_ready deleting
    parameters ← get_spec
    or_fail (wrap (lit "cannot delete certificate from HANA: "))
        (on_db (Client.delete db e parameters))
