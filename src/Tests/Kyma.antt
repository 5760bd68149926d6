-- ===== src/Tests/Kyma.antt =====
-- The theorem on Create of a KymaInstanceMapping, where the secret is there already.
use crossplane_provider_hana.Prelude.{
  ◌≡◌, refl, true, false, some, none, List, [], ◌∷◌, ◌++◌, Option,
}
use crossplane_provider_hana.Text.{lit, text_eq}
use crossplane_provider_hana.Errors.{Err, ok, err, other}
use crossplane_provider_hana.GoMap.{lookup}
use crossplane_provider_hana.Controllers.Kyma.{KymaExtractedData, KymaResource, Write, Management}
use crossplane_provider_hana.Controllers.Kyma.Handlers.{
  create, desired_secret, desired_mapping, build_credentials_json,
}
use crossplane_provider_hana.Controllers.Kyma.Laws.{IsEnsured, IsThere, kyma_create-IsEnsured}
use crossplane_provider_hana.Tests.Mappings.{service}

abbrev answer : Write → Option Err
answer (Write.create_secret secret) = some (other (lit "exists"))
answer (Write.update_secret secret) = none
answer (Write.create_mapping im) = none

abbrev management : Management
management = record {
  on_write = λ ws w. answer w;
  get_secret = λ ws namespace name.
      ok (record { name = name; namespace = namespace; owner = none; secret_data = [] });
  get_mapping = λ ws name. err (other (lit "not found"));
  is_not_found = λ e. true;
  is_already_exists = λ e. true;
}

abbrev extracted : KymaExtractedData
extracted = record {
  service_instance_id = lit "id";
  cluster_id = lit "c1";
  service_instance_name = lit "hana";
  service_instance_ready = true;
  admin_api_credentials = record {
    base_url = lit "host";
    uaa = record { url = lit "uaa"; client_id = lit "i"; client_secret = lit "s" };
  };
}

abbrev kyma_mapping : KymaResource
kyma_mapping = record {
  name = lit "m";
  uid = lit "1";
  spec = record {
    kyma_connection_ref = none;
    admin_binding_ref = record { name = lit "b"; namespace = lit "d" };
    service_instance_ref = record { name = lit "hana"; namespace = lit "d" };
    target_namespace = some (lit "ns");
    cluster_id_config_map_ref = none;
    is_default = false;
    credentials_secret_namespace = [];
  };
  status = record { kyma = none; hana = none; child_resources = none };
  ready = none;
  writes = [];
}

kyma_create-IsEnsured_example :
    let secret = desired_secret service extracted kyma_mapping in
    let im = desired_mapping extracted kyma_mapping in
    let ref = im.spec.admin_credentials_secret_ref in
    ((ws : List Write) × IsEnsured management secret [] ws
      × IsThere management ws (Write.create_mapping im)
      × ((create management service extracted kyma_mapping).1.writes
          ≡ ws ++ Write.create_mapping im ∷ []))
    × (ref.name ≡ secret.name)
    × (ref.namespace ≡ secret.namespace)
    × (lookup secret.secret_data ref.key
        ≡ some (build_credentials_json service extracted.admin_api_credentials))
unfolding create
kyma_create-IsEnsured_example = kyma_create-IsEnsured management service extracted kyma_mapping refl
