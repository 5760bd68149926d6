-- ===== src/Hanacloud.antt =====
-- internal/clients/hanacloud: the REST client of instance mappings. HTTP, JSON, URLs and OAuth2 are
-- libraries: what the service answers is a function of all requests before.
use crossplane_provider_hana.Prelude.{
  ℕ, Bool, ◌&&◌, not, Option, none, some, List, [], ◌∷◌, ◌++◌, ◌==◌, if◌then◌else◌, ℕ_eq,
}
use crossplane_provider_hana.Text.{Text, lit, is_empty}
use crossplane_provider_hana.Numbers.{itoa}
use crossplane_provider_hana.Numbers.ℤ.{pos}
use crossplane_provider_hana.Errors.{Err, Result, ok, err, other, wrap, bind}
use crossplane_provider_hana.Exec.{Exec, lift, relabel, or_fail, ◌>>=◌, ◌>>◌}

pub record UaaConfig : Type 0 where
  pub url : Text
  pub client_id : Text
  pub client_secret : Text

pub record AdminApiCredentials : Type 0 where
  pub base_url : Text
  pub uaa : UaaConfig

pub record InstanceMapping : Type 0 where
  pub platform : Text
  pub primary_id : Text
  pub secondary_id : Option Text
  pub is_default : Bool

pub record Request : Type 0 where
  pub method : Text
  pub url : Text
  pub content_type : Option Text
  pub body : Text

-- io.ReadAll gives the body and the error after it.
pub record Response : Type 0 where
  pub status_code : ℕ
  pub body : Text
  pub read_error : Option Err

abbrev pub Requests : Type 0
Requests = List Request

pub record Http : Type 0 where
  -- http.NewRequestWithContext and Client.Do
  pub new_request : Request → Option Err
  pub respond : Requests → Request → Result Response
  -- json.Unmarshal of a list of mappings and of credentials, json.Marshal of a request and of
  -- credentials, url.Values.Encode
  pub decode_mappings : Text → Result (List InstanceMapping)
  pub decode_credentials : Text → Result AdminApiCredentials
  pub encode_mapping : InstanceMapping → Result Text
  pub encode_credentials : AdminApiCredentials → Result Text
  pub encode_values : List (Text × Text) → Text

abbrev pub Rest : Type 0 → Type 0
Rest A = Exec Requests A

abbrev pub succeed_unless : Option Err → Result (Unit {0})
succeed_unless none = ok tt
succeed_unless (some e) = err e

unfoldable pub mappings_url : Text → Text → Text
mappings_url base_url service_instance_id =
    lit "https://"
    ++ base_url
    ++ lit "/inventory/v2/serviceInstances/"
    ++ service_instance_id
    ++ lit "/instanceMappings"

unfoldable pub status_error : Response → Err
unfolding itoa
status_error r =
    other (lit "API returned status " ++ itoa (pos r.status_code) ++ lit ": " ++ r.body)

module _ (http : Http) where
  -- http.NewRequestWithContext, then httpClient.Do
  unfoldable pub round_trip : Request → Rest Response
  round_trip request = do
    or_fail (wrap (lit "failed to create request: "))
        (lift (succeed_unless (http.new_request request)))
    or_fail (wrap (lit "failed to execute request: "))
        λ h. (http.respond h request, h ++ request ∷ [])

  abbrev listed : Response → Result (List InstanceMapping)
  listed r =
      if r.status_code == 404
      then ok []
      else if not (r.status_code == 200)
      then err (status_error r)
      else bind
          (relabel (wrap (lit "failed to read response body: ")) (succeed_unless r.read_error))
          λ _. relabel (wrap (lit "failed to decode response: ")) (http.decode_mappings r.body)

  unfoldable pub list : Text → Text → Rest (List InstanceMapping)
  unfolding round_trip mappings_url status_error
  list base_url service_instance_id = do
    response ← round_trip (record {
      method = lit "GET";
      url = mappings_url base_url service_instance_id;
      content_type = none;
      body = [];
    })
    lift (listed response)

  abbrev created : Response → Result (Unit {0})
  created r =
      if not (r.status_code == 200) && not (r.status_code == 201)
      then err (status_error r)
      else ok tt

  unfoldable pub create : Text → Text → InstanceMapping → Rest (Unit {0})
  unfolding round_trip mappings_url status_error
  create base_url service_instance_id mapping = do
    body ← or_fail (wrap (lit "failed to marshal request: ")) (lift (http.encode_mapping mapping))
    response ← round_trip (record {
      method = lit "POST";
      url = mappings_url base_url service_instance_id;
      content_type = some (lit "application/json");
      body = body;
    })
    lift (created response)

  -- A mapping that is not there counts as deleted.
  abbrev deleted : Response → Result (Unit {0})
  deleted r =
      if r.status_code == 404
      then ok tt
      else if not (r.status_code == 200) && not (r.status_code == 204)
      then err (status_error r)
      else ok tt

  unfoldable pub delete : Text → Text → Text → Text → Rest (Unit {0})
  unfolding round_trip mappings_url status_error
  delete base_url service_instance_id primary_id secondary_id = do
    response ← round_trip (record {
      method = lit "DELETE";
      url =
          mappings_url base_url service_instance_id
          ++ lit "?"
          ++ http.encode_values
              ((lit "primaryID", primary_id) ∷ (lit "secondaryID", secondary_id) ∷ []);
      content_type = none;
      body = [];
    })
    lift (deleted response)

  unfoldable pub parse_admin_api_credentials : Text → Result AdminApiCredentials
  parse_admin_api_credentials json =
      relabel (wrap (lit "failed to parse admin API credentials: ")) (http.decode_credentials json)

-- hanaCloudClient.Connect: the base URL of the client for mappings, whose HTTP client takes its
-- tokens from UAA.
unfoldable pub connect : AdminApiCredentials → Result Text
unfolding is_empty
connect creds =
    if is_empty creds.base_url
    then err (other (lit "baseurl is required"))
    else if is_empty creds.uaa.url
    then err (other (lit "uaa.url is required"))
    else if is_empty creds.uaa.client_id
    then err (other (lit "uaa.clientid is required"))
    else if is_empty creds.uaa.client_secret
    then err (other (lit "uaa.clientsecret is required"))
    else ok creds.base_url
