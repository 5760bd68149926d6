-- ===== src/Controllers/Kyma/Connect.antt =====
-- internal/controller/kymainstancemapping/reconciler.go: Connect, and the data that it takes from the
-- cluster of the service instance.
use crossplane_provider_hana.Prelude.{Option, none, some, ◌++◌, if◌then◌else◌}
use crossplane_provider_hana.Text.{Text, lit, text_eq, is_empty}
use crossplane_provider_hana.Errors.{Err, Result, ok, err, other, wrap, bind}
use crossplane_provider_hana.Exec.{Exec, lift, relabel, or_fail, modify, ◌>>=◌, ◌>>◌, pure}
use crossplane_provider_hana.GoMap.{GoMap, lookup}
use crossplane_provider_hana.Hanacloud.{
  AdminApiCredentials, Http, parse_admin_api_credentials, succeed_unless,
}
use crossplane_provider_hana.Controllers.Kyma.{
  ResourceReference, KymaConnectionReference, KymaInstanceMappingParameters, KymaCluster,
  KymaExtractedData, KymaResource, ServiceInstance, is_condition_true,
}

-- clientcmd.RESTConfigFromKubeConfig, the two AddToScheme and client.New, of a configuration by its
-- text; usage.Track, kube.Get of a secret in the management cluster, and the quoting of %q.
pub record Clusters : Type 0 where
  pub rest_config : Text → Result Text
  pub add_core : Option Err
  pub add_btp : Option Err
  pub new_client : Text → Result KymaCluster
  pub local : KymaCluster
  pub track : Option Err
  pub get_secret : Text → Text → Result (GoMap Text Text)
  pub quote : Text → Text

unfoldable pub create_remote_client : Clusters → Text → Result KymaCluster
create_remote_client clusters kubeconfig =
    bind
      (relabel (wrap (lit "failed to create REST config from kubeconfig: "))
        (clusters.rest_config kubeconfig))
      λ config.
        bind
          (relabel (wrap (lit "failed to add core v1 to scheme: "))
            (succeed_unless clusters.add_core))
          λ _.
            bind
              (relabel (wrap (lit "failed to add BTP service operator v1 to scheme: "))
                (succeed_unless clusters.add_btp))
              λ _.
                relabel (wrap (lit "failed to create remote client: ")) (clusters.new_client config)

abbrev or_missing : Err → Option Text → Result Text
or_missing e none = err e
or_missing e (some v) = ok v

unfoldable pub get_kubeconfig_data : Clusters → KymaConnectionReference → Result Text
unfolding lookup is_empty
get_kubeconfig_data clusters ref =
    let key = if is_empty ref.kubeconfig_key then lit "kubeconfig" else ref.kubeconfig_key in
    bind
      (relabel (wrap (lit "cannot get kubeconfig secret: "))
        (clusters.get_secret ref.secret_ref.namespace ref.secret_ref.name))
      λ secret.
        or_missing
          (other (lit "kubeconfig key " ++ clusters.quote key ++ lit " not found in secret"))
          (lookup secret key)

abbrev missing_keys : Err
missing_keys = other (lit "admin API credentials secret missing required keys")

-- The URL is put into the JSON text as it is.
unfoldable pub parse_credentials : Http → GoMap Text Text → Result AdminApiCredentials
unfolding lookup parse_admin_api_credentials
parse_credentials http secret =
    bind (or_missing missing_keys (lookup secret (lit "baseurl"))) λ url.
      bind (or_missing missing_keys (lookup secret (lit "uaa"))) λ uaa.
        parse_admin_api_credentials http
          (lit "{\"baseurl\":\"" ++ url ++ lit "\",\"uaa\":" ++ uaa ++ lit "}")

abbrev config_map_ref : Option ResourceReference → ResourceReference
config_map_ref none = record { name = lit "sap-btp-operator-config"; namespace = lit "kyma-system" }
config_map_ref (some ref) = ref

abbrev instance_id_of : ServiceInstance → Result Text
instance_id_of instance' =
    if is_empty instance'.instance_id
    then err (other (lit "ServiceInstance on remote cluster has no instanceID"))
    else ok instance'.instance_id

unfoldable pub extract_kyma_data :
    Http → KymaCluster → KymaInstanceMappingParameters → Result KymaExtractedData
unfolding parse_credentials lookup is_empty is_condition_true
extract_kyma_data http remote params =
    let si = params.service_instance_ref in
    let sb = params.admin_binding_ref in
    let cm = config_map_ref params.cluster_id_config_map_ref in
    bind
      (relabel (wrap (lit "cannot get ServiceInstance from remote cluster: "))
        (remote.get_service_instance si.namespace si.name))
      λ service_instance. bind (instance_id_of service_instance) λ instance_id.
        bind
          (relabel (wrap (lit "cannot get ServiceBinding from remote cluster: "))
            (remote.get_service_binding sb.namespace sb.name))
          λ binding.
            bind
              (relabel (wrap (lit "cannot get admin API credentials secret from remote cluster: "))
                (remote.get_secret binding.namespace binding.secret_name))
              λ admin_secret.
                bind
                  (relabel (wrap (lit "cannot parse admin API credentials: "))
                    (parse_credentials http admin_secret))
                  λ creds.
                    bind
                      (relabel (wrap (lit "cannot get ConfigMap from remote cluster: "))
                        (remote.get_config_map cm.namespace cm.name))
                      λ config_map.
                        bind
                          (or_missing (other (lit "CLUSTER_ID not found in ConfigMap"))
                            (lookup config_map (lit "CLUSTER_ID")))
                          λ cluster_id. ok (record {
                            service_instance_id = instance_id;
                            cluster_id = cluster_id;
                            service_instance_name = service_instance.name;
                            service_instance_ready =
                                is_condition_true service_instance.conditions (lit "Ready");
                            admin_api_credentials = creds;
                          })

abbrev cluster_of : Clusters → Option KymaConnectionReference → Result KymaCluster
cluster_of clusters none = ok clusters.local
cluster_of clusters (some ref) = bind (get_kubeconfig_data clusters ref) λ kubeconfig.
    relabel (wrap (lit "cannot create remote cluster client: "))
      (create_remote_client clusters kubeconfig)

-- The data that the external client keeps; the status shows it without the credentials.
unfoldable pub connect : Http → Clusters → Exec KymaResource KymaExtractedData
unfolding create_remote_client get_kubeconfig_data extract_kyma_data
connect http clusters = do
  or_fail (wrap (lit "cannot track ProviderConfig usage: ")) (lift (succeed_unless clusters.track))
  params ← λ s. (ok s.spec, s)
  cluster ← lift (cluster_of clusters params.kyma_connection_ref)
  extracted ←
      or_fail (wrap (lit "cannot extract data from Kyma cluster: "))
        (lift (extract_kyma_data http cluster params))
  modify λ s. record s {
    status = record (s.status) {
      kyma = some (record {
        service_instance_id = extracted.service_instance_id;
        cluster_id = extracted.cluster_id;
        service_instance_name = extracted.service_instance_name;
        service_instance_ready = extracted.service_instance_ready;
      });
    };
  }
  pure extracted
