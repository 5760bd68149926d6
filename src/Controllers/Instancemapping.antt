-- ===== src/Controllers/Instancemapping.antt =====
-- internal/controller/instancemapping/reconciler.go: the external client of instance mappings, and its
-- connector.
pub mod Laws
use crossplane_provider_hana.Prelude.{
  ℕ, Bool, true, false, ◌&&◌, ◌||◌, not, Option, none, some, List, [], ◌∷◌, ◌++◌, ◌==◌,
  if◌then◌else◌,
}
use crossplane_provider_hana.Text.{Text, lit, text_eq}
use crossplane_provider_hana.Errors.{Err, Result, ok, err, other, wrap, bind}
use crossplane_provider_hana.Exec.{Exec, pure, lift, relabel, or_fail, ◌>>=◌, ◌>>◌}
use crossplane_provider_hana.GoMap.{GoMap, lookup}
use crossplane_provider_hana.Apis.{Ready, available, creating, deleting}
use crossplane_provider_hana.Hanacloud as Rest
use crossplane_provider_hana.Hanacloud.{Http, InstanceMapping, Requests}
use crossplane_provider_hana.Controllers.{ExternalObservation}

pub record AdminCredentialsSecretRef : Type 0 where
  pub name : Text
  pub namespace : Text
  pub key : Text

pub record InstanceMappingParameters : Type 0 where
  pub service_instance_id : Text
  pub platform : Text
  pub primary_id : Text
  pub secondary_id : Option Text
  pub is_default : Bool
  pub admin_credentials_secret_ref : AdminCredentialsSecretRef

pub record InstanceMappingObservation : Type 0 where
  pub mapping_exists : Bool
  pub last_sync_time : Option Text

-- The resource, and the requests that were sent for it.
pub record InstanceMappingResource : Type 0 where
  pub spec : InstanceMappingParameters
  pub status : InstanceMappingObservation
  pub ready : Option Ready
  pub requests : Requests

abbrev pub Handler : Type 0 → Type 0
Handler A = Exec InstanceMappingResource A

abbrev on_rest : {A : Type 0} → Rest.Rest A → Handler A
on_rest m s = ((m s.requests).0, record s { requests = (m s.requests).1 })

abbrev params_of : Handler InstanceMappingParameters
params_of s = (ok s.spec, s)

abbrev mark : Ready → Handler (Unit {0})
mark r s = (ok tt, record s { ready = some r })

unfoldable pub string_ptr_equal : Option Text → Option Text → Bool
string_ptr_equal none none = true
string_ptr_equal (some a) (some b) = a == b
string_ptr_equal a b = false

unfoldable pub is_mapping : InstanceMappingParameters → InstanceMapping → Bool
unfolding string_ptr_equal
is_mapping params mapping =
    mapping.primary_id == params.primary_id
    && string_ptr_equal mapping.secondary_id params.secondary_id

-- The loop of Observe.
unfoldable pub any_mapping : InstanceMappingParameters → List InstanceMapping → Bool
unfolding is_mapping
any_mapping params [] = false
any_mapping params (mapping ∷ mappings) =
    let rest = any_mapping params mappings in if is_mapping params mapping then true else rest

abbrev text_of : Option Text → Text
text_of none = []
text_of (some s) = s

-- The connector: kube.Get of a secret by namespace and name, and the quoting of %q.
unfoldable pub connect :
    Http
    → (Text → Text → Result (GoMap Text Text))
    → (Text → Text)
    → InstanceMappingParameters
    → Result Text
unfolding lookup Rest.parse_admin_api_credentials Rest.connect
connect http kube quote params =
    let ref = params.admin_credentials_secret_ref in
    bind
      (relabel (wrap (lit "cannot get admin credentials secret: ")) (kube ref.namespace ref.name))
      λ secret. elim (lookup secret ref.key) [
        | none ↦ err (other (lit "credentials key " ++ quote ref.key ++ lit " not found in secret"))
        | some json ↦
            bind
              (relabel (wrap (lit "cannot parse admin API credentials: "))
                (Rest.parse_admin_api_credentials http json))
              λ creds.
                relabel (wrap (lit "cannot connect to HANA Cloud API: ")) (Rest.connect creds)
      ]

-- The end of Observe: whether the loop found the mapping, at the time of the handler.
abbrev pub report : Text → Bool → Handler ExternalObservation
report now true s = (
  ok (record { resource_exists = true; resource_up_to_date = true }),
  record s {
    status = record { mapping_exists = true; last_sync_time = some now };
    ready = some available;
  },
)
report now false s = (
  ok (record { resource_exists = false; resource_up_to_date = false }),
  record s { status = record (s.status) { mapping_exists = false } },
)

-- The client is known by its base URL.
module _ (http : Http) (base_url : Text) where
  unfoldable pub observe : Text → Handler ExternalObservation
  unfolding any_mapping
  observe now = do
    params ← params_of
    mappings ←
        or_fail (wrap (lit "cannot list instance mappings: "))
          (on_rest (Rest.list http base_url params.service_instance_id))
    report now (any_mapping params mappings)

  unfoldable pub create : Handler (Unit {0})
  create = do
    params ← params_of
    or_fail (wrap (lit "cannot create instance mapping: ")) (
        on_rest (
          Rest.create http base_url params.service_instance_id (record {
            platform = params.platform;
            primary_id = params.primary_id;
            secondary_id = params.secondary_id;
            is_default = params.is_default;
          })))
    mark creating

  -- Instance mappings are immutable.
  unfoldable pub update : Handler (Unit {0})
  update = pure tt

  unfoldable pub delete : Handler (Unit {0})
  delete = do
    params ← params_of
    or_fail (wrap (lit "cannot delete instance mapping: ")) (
        on_rest (
          Rest.delete http base_url params.service_instance_id params.primary_id
            (text_of params.secondary_id)))
    mark deleting
