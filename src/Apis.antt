-- ===== src/Apis.antt =====
-- apis/admin/v1alpha1: the parameters and observations of the managed resources, and the part of
-- Crossplane's resource status that the controllers write.
use native.Mathlib.Decide.{ℕ_discrete}
use crossplane_provider_hana.Prelude.{ℕ, Bool, Option, List, Eq, discrete_eq}
use crossplane_provider_hana.Text.{Text}
use crossplane_provider_hana.GoMap.{GoMap}
use crossplane_provider_hana.Numbers.{ℤ}

-- The Ready condition: xpv1.Available, Creating, Deleting, and Unavailable with a message.
pub data Ready : Type 0 where
  available creating deleting : Ready
  unavailable : Text → Ready

pub record RoleParameters : Type 0 where
  pub role_name : Text
  pub schema : Text
  pub ldap_groups : List Text
  pub privileges : List Text
  pub rolegroup : Text
  pub no_grant_to_creator : Bool

pub record RoleObservation : Type 0 where
  pub role_name : Text
  pub schema : Text
  pub ldap_groups : List Text
  pub privileges : List Text
  pub rolegroup : Text

pub record UsergroupParameters : Type 0 where
  pub usergroup_name : Text
  pub disable_user_admin : Bool
  pub no_grant_to_creator : Bool
  pub parameters : GoMap Text Text
  pub enable_parameter_set : Text

pub record UsergroupObservation : Type 0 where
  pub usergroup_name : Text
  pub disable_user_admin : Bool
  pub parameters : GoMap Text Text

pub record RolegroupParameters : Type 0 where
  pub rolegroup_name : Text
  pub disable_role_admin : Bool
  pub no_grant_to_creator : Bool
  pub for_grants_on_tenant_objects : Bool

pub record RolegroupObservation : Type 0 where
  pub rolegroup_name : Text
  pub disable_role_admin : Bool

-- A pointer: where the object stands, and the object's name.
pub record Reference : Type 0 where
  pub address : ℕ
  pub name : Text

pub record X509UserMapping : Type 0 where
  pub name : Text
  pub provider_ref : Option Reference
  pub subject_name : Text

pub X509UserMapping-discrete : Discrete X509UserMapping
X509UserMapping-discrete = hlevel ℕ_discrete

-- `==` on mappings compares the pointers, and one address holds one object.
instance abbrev pub mapping_eq : Eq X509UserMapping
mapping_eq = discrete_eq X509UserMapping-discrete

pub record SecretKeySelector : Type 0 where
  pub name : Text
  pub namespace : Text
  pub key : Text

pub record Password : Type 0 where
  pub password_secret_ref : Option SecretKeySelector
  pub force_first_password_change : Bool

pub record Authentication : Type 0 where
  pub password : Option Password
  pub x509_providers : Option (List X509UserMapping)  -- nil, or a slice

pub record UserParameters : Type 0 where
  pub username : Text
  pub restricted_user : Bool
  pub authentication : Authentication
  pub privileges : List Text
  pub roles : List Text
  pub parameters : GoMap Text Text
  pub usergroup : Text
  pub is_password_lifetime_check_enabled : Bool

pub record UserObservation : Type 0 where
  pub username : Option Text
  pub restricted_user : Option Bool
  pub x509_providers : List X509UserMapping
  pub last_password_change_time : Text
  pub password_up_to_date : Option Bool
  pub created_at : Text
  pub privileges : List Text
  pub roles : List Text
  pub parameters : GoMap Text Text
  pub usergroup : Option Text
  pub is_password_lifetime_check_enabled : Option Bool
  pub is_password_enabled : Option Bool

-- UserSpec, with the namespace of the resource.
pub record UserSpec : Type 0 where
  pub for_provider : UserParameters
  pub privilege_management_policy : Text
  pub namespace : Text

pub record DbSchemaParameters : Type 0 where
  pub schema_name : Text
  pub owner : Text

pub record DbSchemaObservation : Type 0 where
  pub schema_name : Text
  pub owner : Text

pub record AuditPolicyParameters : Type 0 where
  pub policy_name : Text
  pub audit_actions : List Text
  pub audit_status : Text
  pub audit_level : Text
  pub audit_trail_retention : Option ℤ
  pub enabled : Option Bool

pub record AuditPolicyObservation : Type 0 where
  pub policy_name : Text
  pub audit_actions : List Text
  pub audit_status : Text
  pub audit_level : Text
  pub audit_trail_retention : Option ℤ
  pub enabled : Option Bool

pub record X509ProviderParameters : Type 0 where
  pub name : Text
  pub issuer : Text
  pub matching_rules : List Text
  pub priority : Option ℤ

pub record X509ProviderObservation : Type 0 where
  pub name : Option Text
  pub issuer : Option Text
  pub matching_rules : List Text
  pub priority : Option ℤ

pub record CertificateRef : Type 0 where
  pub id : Option ℤ
  pub name : Option Text

-- A reference by the name in the database, or by that of a resource.
pub record X509ProviderRef : Type 0 where
  pub name : Text
  pub provider_ref : Option Text

pub record PersonalSecurityEnvironmentParameters : Type 0 where
  pub name : Text
  pub x509_provider_ref : Option X509ProviderRef
  pub certificate_refs : List CertificateRef

pub record PersonalSecurityEnvironmentObservation : Type 0 where
  pub name : Text
  pub x509_provider_name : Text
  pub certificate_refs : List CertificateRef

pub record CertificateParameters : Type 0 where
  pub name : Text
  pub certificate_secret_ref : Option SecretKeySelector

pub record ImportedCertificate : Type 0 where
  pub id : Option ℤ
  pub name : Text

pub record CertificateObservation : Type 0 where
  pub certificates : List ImportedCertificate
