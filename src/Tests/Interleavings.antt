-- ===== src/Tests/Interleavings.antt =====
-- The theorem on the goroutines of a PSE's Update, applied to one schedule.
use crossplane_provider_hana.Prelude.{◌≡◌, refl, some, none, List, [], ◌∷◌, map}
use crossplane_provider_hana.Text.{Text, lit}
use crossplane_provider_hana.Numbers.ℤ.{pos}
use crossplane_provider_hana.Sql.{plain}
use crossplane_provider_hana.Goroutines.{Schedule}
use crossplane_provider_hana.Goroutines.Laws.{IsShuffle}
use crossplane_provider_hana.Apis.{CertificateRef}
use crossplane_provider_hana.Clients.Pse.{update, certificate_queries}
use crossplane_provider_hana.Clients.Pse.Laws.{ahead, pse_update-IsShuffle}
use crossplane_provider_hana.Tests.Data.{answering}

-- The certificates are dropped first, then one is added, then the purpose is set.
abbrev schedule : Schedule
schedule = 2 ∷ 1 ∷ 0 ∷ []

abbrev to_add : List CertificateRef
to_add =
    record { id = some (pos 12); name = none } ∷ record { id = none; name = some (lit "B") } ∷ []

abbrev to_remove : List CertificateRef
to_remove = record { id = some (pos 3); name = some (lit "A") } ∷ []

abbrev adds : List Text
adds = lit "ALTER PSE P ADD CERTIFICATE 12" ∷ lit "ALTER PSE P ADD CERTIFICATE \"B\"" ∷ []

abbrev drops : List Text
drops = lit "ALTER PSE P DROP CERTIFICATE 3" ∷ []

pse_update-IsShuffle_example :
    (zs : List Text) × IsShuffle (ahead (lit "P") (lit "IDP") (adds ∷ drops ∷ [])) zs
    × ((update (answering []) schedule (lit "P") to_add to_remove (lit "IDP") []).1 ≡ map plain zs)
unfolding certificate_queries update
pse_update-IsShuffle_example =
    pse_update-IsShuffle (answering []) schedule (lit "P") to_add to_remove (lit "IDP") adds drops
      [] refl refl refl
