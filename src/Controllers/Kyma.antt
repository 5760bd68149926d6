-- ===== src/Controllers/Kyma.antt =====
-- internal/controller/kymainstancemapping/reconciler.go and internal/clients/remotecluster/client.go:
-- data, and what Kubernetes answers.
pub mod Connect
pub mod Handlers
pub mod Laws
use crossplane_provider_hana.Prelude.{
  ℕ, Bool, true, false, ◌&&◌, Option, none, some, List, [], ◌∷◌, ◌++◌, ◌==◌, if◌then◌else◌,
}
use crossplane_provider_hana.Text.{Text, lit, text_eq}
use crossplane_provider_hana.Errors.{Err, Result}
use crossplane_provider_hana.GoMap.{GoMap}
use crossplane_provider_hana.Apis.{Ready}
use crossplane_provider_hana.Hanacloud.{AdminApiCredentials}
use crossplane_provider_hana.Controllers.Instancemapping.{
  InstanceMappingParameters, InstanceMappingObservation,
}

pub record ResourceReference : Type 0 where
  pub name : Text
  pub namespace : Text

pub record KymaConnectionReference : Type 0 where
  pub secret_ref : ResourceReference
  pub kubeconfig_key : Text

pub record KymaInstanceMappingParameters : Type 0 where
  pub kyma_connection_ref : Option KymaConnectionReference
  pub admin_binding_ref : ResourceReference
  pub service_instance_ref : ResourceReference
  pub target_namespace : Option Text
  pub cluster_id_config_map_ref : Option ResourceReference
  pub is_default : Bool
  pub credentials_secret_namespace : Text

pub record KymaClusterObservation : Type 0 where
  pub service_instance_id : Text
  pub cluster_id : Text
  pub service_instance_name : Text
  pub service_instance_ready : Bool

pub record MappingId : Type 0 where
  pub service_instance_id : Text
  pub primary_id : Text
  pub secondary_id : Option Text

pub record HanaCloudObservation : Type 0 where
  pub mapping_id : Option MappingId
  pub ready : Bool

pub record ChildResourcesReference : Type 0 where
  pub instance_mapping_name : Text
  pub credentials_secret_name : Text
  pub credentials_secret_namespace : Text
  pub instance_mapping_ready : Bool
  pub instance_mapping_synced : Bool

pub record KymaInstanceMappingObservation : Type 0 where
  pub kyma : Option KymaClusterObservation
  pub hana : Option HanaCloudObservation
  pub child_resources : Option ChildResourcesReference

-- A condition: its type, and whether its status is True.
pub record Condition : Type 0 where
  pub condition_type : Text
  pub is_true : Bool

pub record ServiceInstance : Type 0 where
  pub name : Text
  pub instance_id : Text
  pub conditions : List Condition

pub record ServiceBinding : Type 0 where
  pub namespace : Text
  pub secret_name : Text

-- kube.Get in the cluster of the service instance, by namespace and name.
pub record KymaCluster : Type 0 where
  pub get_service_instance : Text → Text → Result ServiceInstance
  pub get_service_binding : Text → Text → Result ServiceBinding
  pub get_secret : Text → Text → Result (GoMap Text Text)
  pub get_config_map : Text → Text → Result (GoMap Text Text)

-- kymaExtractedData
pub record KymaExtractedData : Type 0 where
  pub service_instance_id : Text
  pub cluster_id : Text
  pub service_instance_name : Text
  pub service_instance_ready : Bool
  pub admin_api_credentials : AdminApiCredentials

-- The controller's OwnerReference, by the name and the UID of the owner.
pub record Owner : Type 0 where
  pub name : Text
  pub uid : Text

pub record Secret : Type 0 where
  pub name : Text
  pub namespace : Text
  pub owner : Option Owner
  pub secret_data : GoMap Text Text

-- The child InstanceMapping.
pub record ChildMapping : Type 0 where
  pub name : Text
  pub owner : Option Owner
  pub spec : InstanceMappingParameters
  pub at_provider : InstanceMappingObservation
  pub conditions : List Condition

-- What is asked of the management cluster to change.
pub data Write : Type 0 where
  create_secret : Secret → Write
  update_secret : Secret → Write
  create_mapping : ChildMapping → Write

-- The management cluster: its answers are functions of all that it was asked to change before.
-- apierrors.IsNotFound and apierrors.IsAlreadyExists tell its errors apart.
pub record Management : Type 0 where
  pub on_write : List Write → Write → Option Err
  pub get_secret : List Write → Text → Text → Result Secret
  pub get_mapping : List Write → Text → Result ChildMapping
  pub is_not_found : Err → Bool
  pub is_already_exists : Err → Bool

pub record KymaResource : Type 0 where
  pub name : Text
  pub uid : Text
  pub spec : KymaInstanceMappingParameters
  pub status : KymaInstanceMappingObservation
  pub ready : Option Ready
  pub writes : List Write

-- isConditionTrue and isServiceInstanceReady
unfoldable pub is_condition_true : List Condition → Text → Bool
is_condition_true [] condition_type = false
is_condition_true (c ∷ conditions) condition_type =
    let rest = is_condition_true conditions condition_type in
    if c.condition_type == condition_type && c.is_true then true else rest
