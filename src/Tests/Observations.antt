-- ===== src/Tests/Observations.antt =====
-- The theorem on Observe of a user, applied to a user that is there and has other parameters.
use crossplane_provider_hana.Prelude.{ℕ, Bool, true, false, ◌≡◌, refl, some, List, [], ◌∷◌, ◌==◌}
use crossplane_provider_hana.Text.{Text, lit, text_eq}
use crossplane_provider_hana.Errors.{ok}
use crossplane_provider_hana.Sql.{Database, str, bool, time}
use crossplane_provider_hana.Apis.{UserParameters}
use crossplane_provider_hana.Clients.User.Read.{read}
use crossplane_provider_hana.Controllers.User.Inputs.{handle_defaults, convert, get_password}
use crossplane_provider_hana.Controllers.User.Observe.{observe}
use crossplane_provider_hana.Controllers.User.Observe.Outcomes.{IsObserved, user_observe-IsObserved}
use crossplane_provider_hana.Tests.Data.{in_order, answering_first, alice, cluster}

-- It knows of the user ALICE, without privileges and roles.
abbrev with_alice : Database
with_alice = answering_first (
    (str (lit "ALICE")
      ∷ str (lit "DEFAULT")
      ∷ time (lit "2024-01-01T00:00:00Z")
      ∷ time (lit "2024-01-01T00:00:00Z")
      ∷ bool false
      ∷ bool true
      ∷ bool false
      ∷ [])
    ∷ [])

abbrev copied : ℕ → ℕ
copied address = address

user_observe-IsObserved_example :
    (parameters : UserParameters) × (password : Text) × (convert
        (lit "SYS")
        (handle_defaults copied alice.spec)
      ≡ ok parameters)
    × (get_password cluster alice.spec ≡ ok password)
    × IsObserved
        (lit "SYS")
        parameters
        ((read with_alice parameters password []).0).0
        alice
        (observe with_alice cluster in_order copied (lit "SYS") alice).1
        (record { resource_exists = true; resource_up_to_date = false })
unfolding observe crossplane_provider_hana.GoMap.nodup crossplane_provider_hana.Prelude.list_eq read
user_observe-IsObserved_example =
    user_observe-IsObserved with_alice cluster in_order copied (lit "SYS") alice refl refl
