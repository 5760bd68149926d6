-- ===== src/Controllers/User/Secrets.antt =====
-- internal/controller/user/reconciler.go: generateReconcileRequestsFromSecret, which queues the
-- users whose password a changed secret holds.
use crossplane_provider_hana.Prelude.{
  Bool, false, ◌&&◌, Option, none, some, List, [], ◌∷◌, ◌==◌, if◌then◌else◌, ℕ_eq,
}
use crossplane_provider_hana.Text.{Text, text_eq}
use crossplane_provider_hana.Errors.{Result, ok, err}
use crossplane_provider_hana.Apis.{SecretKeySelector, Password, UserParameters}

-- What the loop reads of an entry of the list: the name of the resource, and its parameters.
pub record ListedUser : Type 0 where
  pub name : Text
  pub for_provider : UserParameters

-- The name and the namespace of a secret.
pub record SecretName : Type 0 where
  pub name : Text
  pub namespace : Text

unfoldable pub selects : SecretName → Option SecretKeySelector → Bool
selects secret none = false
selects secret (some secret_ref) =
    secret_ref.namespace == secret.namespace && secret_ref.name == secret.name

unfoldable pub has_password_in : SecretName → Option Password → Bool
unfolding selects
has_password_in secret none = false
has_password_in secret (some password_obj) = selects secret password_obj.password_secret_ref

-- The names of the requests, which have no namespace.
unfoldable pub requests_of : SecretName → List ListedUser → List Text
unfolding has_password_in
requests_of secret [] = []
requests_of secret (user ∷ users) =
    let requests = requests_of secret users in
    if has_password_in secret user.for_provider.authentication.password
    then user.name ∷ requests
    else requests

-- The object is none where it is no secret; `users` is what kube.List answers.
unfoldable pub generate_reconcile_requests_from_secret :
    Option SecretName → Result (List ListedUser) → List Text
unfolding requests_of
generate_reconcile_requests_from_secret none users = []
generate_reconcile_requests_from_secret (some secret) (err e) = []
generate_reconcile_requests_from_secret (some secret) (ok users) = requests_of secret users
