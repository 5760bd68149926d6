-- ===== src/Clients/Pse/Laws.antt =====
-- The statements that the goroutines of Update send.
use crossplane_provider_hana.Prelude.{Bool, true, false, List, [], ◌∷◌, ◌++◌, map, ◌≡◌}
use crossplane_provider_hana.Text.{Text, is_empty}
use crossplane_provider_hana.Errors.{ok}
use crossplane_provider_hana.Sql.{Database, History, plain}
use crossplane_provider_hana.Goroutines.{Task, Schedule}
use crossplane_provider_hana.Goroutines.Laws.{IsShuffle, IsPending}
use crossplane_provider_hana.Goroutines.Schedules.{wait-IsShuffle}
use crossplane_provider_hana.Apis.{CertificateRef}
use crossplane_provider_hana.Clients.Pse.{
  update, certificate_queries, update_certificates_for_pse, set_purpose_query, set_pse_purpose,
  with_purpose, update_failure, same,
}

-- The statements ahead of each goroutine: first that of the purpose, where there is a provider.
abbrev pub ahead : Text → Text → List (List Text) → List (List Text)
ahead pse_name [] qss = qss
ahead pse_name (c ∷ provider) qss = (set_purpose_query pse_name (c ∷ provider) ∷ []) ∷ qss

purpose-IsPending :
    (pse_name provider : Text) (ts : List (Task (Unit {0}))) (qss : List (List Text))
    → IsPending ts qss
    → IsPending (with_purpose pse_name provider ts) (ahead pse_name provider qss)
unfolding with_purpose set_pse_purpose is_empty
purpose-IsPending pse_name [] ts qss w = w
purpose-IsPending pse_name (c ∷ provider) ts qss w =
    IsPending.sending same (set_purpose_query pse_name (c ∷ provider) ∷ []) w

certificates-IsPending :
    (add : Bool) (pse_name : Text) (refs : List CertificateRef) (queries : List Text)
    {ts : List (Task (Unit {0}))} {qss : List (List Text)}
    → certificate_queries add pse_name refs ≡ ok queries
    → IsPending ts qss
    → IsPending (update_certificates_for_pse add pse_name refs ∷ ts) (queries ∷ qss)
unfolding update_certificates_for_pse
certificates-IsPending add pse_name refs queries h w =
    rw h (IsPending.sending update_failure queries w)

-- An Update of a PSE that succeeds has sent the statement of the purpose, where there is a provider,
-- those that add certificates and those that drop them, and nothing else. Whatever the schedule of
-- the goroutines, each has sent its own in order.
pub pse_update-IsShuffle :
    (db : Database) (schedule : Schedule) (pse_name : Text) (to_add to_remove : List CertificateRef)
    (provider : Text) (adds drops : List Text) (h : History)
    → certificate_queries true pse_name to_add ≡ ok adds
    → certificate_queries false pse_name to_remove ≡ ok drops
    → (update db schedule pse_name to_add to_remove provider h).0 ≡ ok tt
    → (zs : List Text) × IsShuffle (ahead pse_name provider (adds ∷ drops ∷ [])) zs
      × ((update db schedule pse_name to_add to_remove provider h).1 ≡ h ++ map plain zs)
unfolding update
pse_update-IsShuffle db schedule pse_name to_add to_remove provider adds drops h a d p =
    wait-IsShuffle db schedule h
      (purpose-IsPending pse_name provider _ _ (
        certificates-IsPending true pse_name to_add adds a
          (certificates-IsPending false pse_name to_remove drops d IsPending.none_left)))
      p
