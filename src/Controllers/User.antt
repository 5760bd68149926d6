-- ===== src/Controllers/User.antt =====
-- internal/controller/user/reconciler.go: the external client of users. What a handler asks of
-- Kubernetes is a parameter.
pub mod Inputs
pub mod Secrets
pub mod Steps
pub mod Observe
pub mod Update
pub mod Laws
use crossplane_provider_hana.Prelude.{ℕ}
use crossplane_provider_hana.Text.{Text}
use crossplane_provider_hana.Errors.{Result}
use crossplane_provider_hana.Exec.{Exec}
use crossplane_provider_hana.GoMap.{GoMap}
use crossplane_provider_hana.Apis.{UserSpec, UserObservation}
use crossplane_provider_hana.Controllers.{Managed}

-- kube.Get: by namespace and name, the data of a secret, and the name that an X509Provider has in
-- the database.
pub record Kube : Type 0 where
  pub get_secret : Text → Text → Result (GoMap Text Text)
  pub get_x509_provider : Text → Text → Result Text

abbrev pub UserResource : Type 0
UserResource = Managed UserSpec UserObservation

abbrev pub Handler : Type 0 → Type 0
Handler A = Exec UserResource A
