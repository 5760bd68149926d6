-- ===== src/Tests/Secrets.antt =====
-- generateReconcileRequestsFromSecret of internal/controller/user/reconciler.go on two users.
use crossplane_provider_hana.Prelude.{◌≡◌, refl, Option, none, some, List, [], ◌∷◌, true}
use crossplane_provider_hana.Text.{lit}
use crossplane_provider_hana.Errors.{ok}
use crossplane_provider_hana.Apis.{UserParameters, Password}
use crossplane_provider_hana.Controllers.User.Secrets.{
  ListedUser, generate_reconcile_requests_from_secret,
}
use crossplane_provider_hana.Tests.Data.{user_parameters}

abbrev secret_password : Password
secret_password = record {
  password_secret_ref =
      some (record { name = lit "pw"; namespace = lit "default"; key = lit "password" });
  force_first_password_change = true;
}

abbrev with_password : Option Password → UserParameters
with_password password = record user_parameters {
  authentication = record { password = password; x509_providers = none };
}

abbrev listed_users : List ListedUser
listed_users =
    record { name = lit "alice"; for_provider = with_password (some secret_password) }
    ∷ record { name = lit "bob"; for_provider = with_password none }
    ∷ []

requests_for_secret :
    generate_reconcile_requests_from_secret
      (some (record { name = lit "pw"; namespace = lit "default" }))
      (ok listed_users)
    ≡ lit "alice" ∷ []
unfolding generate_reconcile_requests_from_secret crossplane_provider_hana.Prelude.list_eq
requests_for_secret = refl

requests_for_other_namespace :
    generate_reconcile_requests_from_secret
      (some (record { name = lit "pw"; namespace = lit "other" }))
      (ok listed_users)
    ≡ []
unfolding generate_reconcile_requests_from_secret crossplane_provider_hana.Prelude.list_eq
requests_for_other_namespace = refl
