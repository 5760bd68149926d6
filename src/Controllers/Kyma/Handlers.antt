-- ===== src/Controllers/Kyma/Handlers.antt =====
-- internal/controller/kymainstancemapping/reconciler.go: the external client, which keeps a secret and
-- an InstanceMapping as children of the resource.
use crossplane_provider_hana.Prelude.{Bool, true, false, none, some, [], ◌∷◌, ◌++◌, if◌then◌else◌}
use crossplane_provider_hana.Text.{Text, lit, is_empty}
use crossplane_provider_hana.Errors.{Result, ok, err, wrap}
use crossplane_provider_hana.Exec.{Exec, pure, fail, or_fail, modify, ◌>>=◌, ◌>>◌}
use crossplane_provider_hana.Apis.{available, creating, deleting}
use crossplane_provider_hana.Hanacloud.{AdminApiCredentials, Http, succeed_unless}
use crossplane_provider_hana.Controllers.{ExternalObservation}
use crossplane_provider_hana.Controllers.Kyma.{
  KymaInstanceMappingParameters, KymaExtractedData, KymaResource, ChildMapping, Secret, Write,
  Management, is_condition_true,
}

abbrev pub Handler : Type 0 → Type 0
Handler A = Exec KymaResource A

unfoldable pub get_credentials_namespace : KymaInstanceMappingParameters → Text
unfolding is_empty
get_credentials_namespace params =
    if is_empty params.credentials_secret_namespace
    then lit "crossplane-system"
    else params.credentials_secret_namespace

unfoldable pub secret_name_of : Text → Text
secret_name_of name = name ++ lit "-admin-creds"

unfoldable pub mapping_name_of : Text → Text
mapping_name_of name = name ++ lit "-mapping"

unfoldable pub build_credentials_json : Http → AdminApiCredentials → Text
build_credentials_json http creds = elim (http.encode_credentials creds) [
  | ok json ↦ json
  | err e ↦ lit "{}"
]

-- The secret and the mapping that Create wants.
unfoldable pub desired_secret : Http → KymaExtractedData → KymaResource → Secret
unfolding get_credentials_namespace secret_name_of build_credentials_json
desired_secret http kyma_data s = record {
  name = secret_name_of s.name;
  namespace = get_credentials_namespace s.spec;
  owner = some (record { name = s.name; uid = s.uid });
  secret_data =
      (lit "credentials", build_credentials_json http kyma_data.admin_api_credentials) ∷ [];
}

unfoldable pub desired_mapping : KymaExtractedData → KymaResource → ChildMapping
unfolding get_credentials_namespace secret_name_of mapping_name_of
desired_mapping kyma_data s = record {
  name = mapping_name_of s.name;
  owner = some (record { name = s.name; uid = s.uid });
  spec = record {
    service_instance_id = kyma_data.service_instance_id;
    platform = lit "kubernetes";
    primary_id = kyma_data.cluster_id;
    secondary_id = s.spec.target_namespace;
    is_default = s.spec.is_default;
    admin_credentials_secret_ref = record {
      name = secret_name_of s.name;
      namespace = get_credentials_namespace s.spec;
      key = lit "credentials";
    };
  };
  at_provider = record { mapping_exists = false; last_sync_time = none };
  conditions = [];
}

abbrev with_children : Bool → Bool → KymaResource → KymaResource
with_children is_ready is_synced s = record s {
  status = record (s.status) {
    child_resources = some (record {
      instance_mapping_name = mapping_name_of s.name;
      credentials_secret_name = secret_name_of s.name;
      credentials_secret_namespace = get_credentials_namespace s.spec;
      instance_mapping_ready = is_ready;
      instance_mapping_synced = is_synced;
    });
  };
}

abbrev with_hana : ChildMapping → Bool → KymaResource → KymaResource
with_hana im is_ready s =
    if im.at_provider.mapping_exists
    then record s {
      status = record (s.status) {
        hana = some (record {
          mapping_id = some (record {
            service_instance_id = im.spec.service_instance_id;
            primary_id = im.spec.primary_id;
            secondary_id = im.spec.secondary_id;
          });
          ready = is_ready;
        });
      };
    }
    else s

abbrev with_available : Bool → KymaResource → KymaResource
with_available is_ready s = if is_ready then record s { ready = some available } else s

module _ (m : Management) where
  abbrev pub write : Write → Handler (Unit {0})
  write w s = (succeed_unless (m.on_write s.writes w), record s { writes = s.writes ++ w ∷ [] })

  abbrev observed_child : Result ChildMapping → Handler ExternalObservation
  observed_child (err e) =
      if m.is_not_found e
      then pure (record { resource_exists = false; resource_up_to_date = false })
      else fail (wrap (lit "cannot get InstanceMapping: ") e)
  observed_child (ok im) = do
    modify (
        with_children (is_condition_true im.conditions (lit "Ready"))
          (is_condition_true im.conditions (lit "Synced")))
    modify (with_hana im (is_condition_true im.conditions (lit "Ready")))
    modify (with_available (is_condition_true im.conditions (lit "Ready")))
    pure (record { resource_exists = true; resource_up_to_date = true })

  unfoldable pub observe : Handler ExternalObservation
  unfolding mapping_name_of secret_name_of get_credentials_namespace is_condition_true
  observe s = observed_child (m.get_mapping s.writes (mapping_name_of s.name)) s

  -- Where the secret exists, its data are replaced.
  abbrev pub refresh : Secret → Handler (Unit {0})
  refresh secret = do
    existing ←
        or_fail (wrap (lit "cannot update credentials secret: "))
          λ s. (m.get_secret s.writes secret.namespace secret.name, s)
    or_fail (wrap (lit "cannot update credentials secret: "))
        (write (Write.update_secret (record existing { secret_data = secret.secret_data })))

  abbrev pub or_refresh : Secret → Result (Unit {0}) → Handler (Unit {0})
  or_refresh secret (ok u) = pure tt
  or_refresh secret (err e) =
      if m.is_already_exists e
      then refresh secret
      else fail (wrap (lit "cannot create credentials secret: ") e)

  -- Step 1 of Create.
  unfoldable pub ensure_secret : Secret → Handler (Unit {0})
  ensure_secret secret s =
      or_refresh secret (write (Write.create_secret secret) s).0
        (write (Write.create_secret secret) s).1

  abbrev pub unless_exists : Result (Unit {0}) → Result (Unit {0})
  unless_exists (ok u) = ok tt
  unless_exists (err e) =
      if m.is_already_exists e then ok tt else err (wrap (lit "cannot create InstanceMapping: ") e)

  -- Step 2 of Create.
  unfoldable pub ensure_mapping : ChildMapping → Handler (Unit {0})
  ensure_mapping im s =
      (unless_exists (write (Write.create_mapping im) s).0, (write (Write.create_mapping im) s).1)

  abbrev pub creating_children : Handler (Unit {0})
  creating_children = modify λ s. record (with_children false false s) { ready = some creating }

  unfoldable pub create : Http → KymaExtractedData → Handler (Unit {0})
  unfolding ensure_secret ensure_mapping desired_secret desired_mapping mapping_name_of
      secret_name_of get_credentials_namespace
  create http kyma_data s =
      (ensure_secret (desired_secret http kyma_data s)
          >> (ensure_mapping (desired_mapping kyma_data s) >> creating_children))
        s

-- The child does it.
unfoldable pub update : Handler (Unit {0})
update = pure tt

-- The children are collected with their owner.
unfoldable pub delete : Handler (Unit {0})
delete = modify λ s. record s { ready = some deleting }
