-- ===== src/Tests/Mappings.antt =====
-- The theorem on instance mappings, applied to a service that lists two.
use crossplane_provider_hana.Prelude.{◌≡◌, refl, true, false, some, none, List, [], ◌∷◌, ◌↔◌}
use crossplane_provider_hana.Text.{lit}
use crossplane_provider_hana.Errors.{ok, err, other}
use crossplane_provider_hana.Hanacloud.{Http, InstanceMapping, list}
use crossplane_provider_hana.Controllers.Instancemapping.{InstanceMappingResource, observe}
use crossplane_provider_hana.Controllers.Instancemapping.Laws.{
  IsListed, instancemapping_observe_iff,
}

abbrev mappings : List InstanceMapping
mappings =
    record {
      platform = lit "kubernetes";
      primary_id = lit "c1";
      secondary_id = none;
      is_default = true;
    }
    ∷ record {
      platform = lit "kubernetes";
      primary_id = lit "c1";
      secondary_id = some (lit "ns");
      is_default = false;
    }
    ∷ []

abbrev pub service : Http
service = record {
  new_request = λ r. none;
  respond = λ h r. ok (record { status_code = 200; body = lit "{}"; read_error = none });
  decode_mappings = λ json. ok mappings;
  decode_credentials = λ json. err (other (lit "unexpected end of JSON input"));
  encode_mapping = λ m. ok (lit "{}");
  encode_credentials = λ c. ok (lit "{}");
  encode_values = λ values. [];
}

abbrev mapping_of_namespace : InstanceMappingResource
mapping_of_namespace = record {
  spec = record {
    service_instance_id = lit "id";
    platform = lit "kubernetes";
    primary_id = lit "c1";
    secondary_id = some (lit "ns");
    is_default = false;
    admin_credentials_secret_ref = record { name = lit "s"; namespace = lit "d"; key = lit "k" };
  };
  status = record { mapping_exists = false; last_sync_time = none };
  ready = none;
  requests = [];
}

instancemapping_observe_iff_example :
    ((observe service (lit "host") (lit "2026-01-01T00:00:00Z") mapping_of_namespace).0
      ≡ ok (record { resource_exists = true; resource_up_to_date = true }))
    ↔ IsListed mapping_of_namespace.spec mappings
unfolding list
instancemapping_observe_iff_example =
    instancemapping_observe_iff service (lit "host") (lit "2026-01-01T00:00:00Z")
      mapping_of_namespace mappings refl
