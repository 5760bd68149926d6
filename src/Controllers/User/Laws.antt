-- ===== src/Controllers/User/Laws.antt =====
-- What the steps of Update of a user do to the status and to the database.
use crossplane_provider_hana.Prelude.{false, [], ◌∷◌, ◌++◌, ◌≡◌, refl, arith, Bool-cases, inl, inr}
use crossplane_provider_hana.Text.{Text, lit, text_eq}
use crossplane_provider_hana.Sql.{Database, plain, exec}
use crossplane_provider_hana.GoMap.{MapOrder, IsMap, lookup}
use crossplane_provider_hana.Utils.{maps_both_diff}
use crossplane_provider_hana.Utils.Maps.{maps_both_diff_nothing, maps_both_diff_equal}
use crossplane_provider_hana.Apis.{UserParameters, UserObservation, mapping_eq}
use crossplane_provider_hana.Clients.User as Client
use crossplane_provider_hana.Controllers.User.{UserResource}
use crossplane_provider_hana.Controllers.User.Steps.{update_parameters}

-- UpdateParameters with nothing to set and nothing to clear names the user and says no more.
bare_statement :
    (o : MapOrder) (username : Text)
    → Client.update_parameters_query o username [] [] ≡ lit "ALTER USER " ++ username
unfolding Client.update_parameters_query
bare_statement o username = refl

module _ (db : Database) (o : MapOrder) (desired : UserParameters) (observed : UserObservation)
    (cr : UserResource) (desired_map : IsMap desired.parameters)
    (observed_map : IsMap observed.parameters) where
  differ :
      (j : Text)
      → ¬ (lookup desired.parameters j ≡ lookup observed.parameters j)
      → (maps_both_diff o desired.parameters observed.parameters).0 ≡ false
  differ j apart = elim (Bool-cases (maps_both_diff o desired.parameters observed.parameters).0) [
    | inl e ↦ absurd (
        apart (
          (maps_both_diff_equal o desired.parameters observed.parameters desired_map observed_map).0
            e j))
    | inr e ↦ e
  ]

  -- Where a parameter of the user reads differently from the desired one, the step sends
  -- `ALTER USER` with the name alone: it sets no parameter and clears none.
  pub update_parameters_sends_nothing :
      (j : Text)
      → ¬ (lookup desired.parameters j ≡ lookup observed.parameters j)
      → (update_parameters db o desired observed cr).1.history
        ≡ cr.history ++ plain (lit "ALTER USER " ++ desired.username) ∷ []
  unfolding update_parameters Client.update_parameters exec Client.update_parameters_query
  update_parameters_sends_nothing j apart =
      let h = differ j apart in
      let (no_set, no_clear) =
        maps_both_diff_nothing o desired.parameters observed.parameters desired_map observed_map in
      rw (h, no_set, no_clear) (ground arith)
