-- ===== src/Tests/Data.antt =====
-- Concrete parameters of the model: an order of maps and databases.
use mathlib.Core.List.Permᴰ as Permᴰ
use crossplane_provider_hana.Prelude.{true, false, none, some, List, [], ◌∷◌, ◌==◌, if◌then◌else◌}
use crossplane_provider_hana.Text.{Text, lit, text_eq}
use crossplane_provider_hana.Errors.{ok, other}
use crossplane_provider_hana.Sql.{Database, Row, Stmt}
use crossplane_provider_hana.GoMap.{MapOrder}
use crossplane_provider_hana.Apis.{
  DbSchemaParameters, DbSchemaObservation, RoleParameters, RoleObservation, UsergroupParameters,
  UsergroupObservation, RolegroupParameters, RolegroupObservation, UserParameters, UserObservation,
  UserSpec, X509UserMapping,
}
use crossplane_provider_hana.Controllers.{Managed}
use crossplane_provider_hana.Controllers.User.{Kube}

-- Maps visited in the order of their entries.
abbrev pub in_order : MapOrder
in_order = record { range = λ A xs. xs; range_perm = λ A xs. Permᴰ.refl xs }

-- A database that accepts every statement and answers every query with the given rows.
abbrev pub answering : List Row → Database
answering rows = record {
  on_exec = λ h q. none;
  on_query = λ h q. ok (record { rows = rows; broken = none });
}

-- A database that refuses one statement.
abbrev pub refusing : Text → Database
refusing text = record {
  on_exec = λ h q. if q.sql == text then some (other (lit "refused")) else none;
  on_query = λ h q. ok (record { rows = []; broken = none });
}

abbrev pub role_parameters : RoleParameters
role_parameters = record {
  role_name = lit "READER";
  schema = [];
  ldap_groups = lit "cn=dev" ∷ [];
  privileges = lit "CATALOG READ" ∷ [];
  rolegroup = lit "RG";
  no_grant_to_creator = false;
}

-- A role whose status is behind its specification.
abbrev pub stale_role : Managed RoleParameters RoleObservation
stale_role = record {
  spec = role_parameters;
  status = record {
    role_name = lit "READER";
    schema = [];
    ldap_groups = lit "cn=old" ∷ [];
    privileges = [];
    rolegroup = [];
  };
  ready = none;
  history = [];
}

abbrev pub current_role : Managed RoleParameters RoleObservation
current_role = record stale_role {
  status = record {
    role_name = lit "READER";
    schema = [];
    ldap_groups = lit "cn=dev" ∷ [];
    privileges = lit "CATALOG READ" ∷ [];
    rolegroup = lit "RG";
  };
}

abbrev pub stale_usergroup : Managed UsergroupParameters UsergroupObservation
stale_usergroup = record {
  spec = record {
    usergroup_name = lit "UG";
    disable_user_admin = true;
    no_grant_to_creator = false;
    parameters = (lit "force_first_password_change", lit "false") ∷ [];
    enable_parameter_set = lit "password policy";
  };
  status = record { usergroup_name = lit "UG"; disable_user_admin = false; parameters = [] };
  ready = none;
  history = [];
}

abbrev pub stale_rolegroup : Managed RolegroupParameters RolegroupObservation
stale_rolegroup = record {
  spec = record {
    rolegroup_name = lit "RG";
    disable_role_admin = true;
    no_grant_to_creator = false;
    for_grants_on_tenant_objects = false;
  };
  status = record { rolegroup_name = lit "RG"; disable_role_admin = false };
  ready = none;
  history = [];
}

abbrev pub user_parameters : UserParameters
user_parameters = record {
  username = lit "ALICE";
  restricted_user = false;
  authentication = record { password = none; x509_providers = none };
  privileges = lit "CATALOG READ" ∷ [];
  roles = lit "\"PUBLIC\"" ∷ [];
  parameters = (lit "CLIENT", lit "100") ∷ [];
  usergroup = lit "DEFAULT";
  is_password_lifetime_check_enabled = true;
}

abbrev pub user_observation : UserObservation
user_observation = record {
  username = some (lit "ALICE");
  restricted_user = some false;
  x509_providers = [];
  last_password_change_time = [];
  password_up_to_date = none;
  created_at = [];
  privileges = lit "CATALOG READ" ∷ [];
  roles = lit "\"PUBLIC\"" ∷ [];
  parameters = (lit "CLIENT", lit "200") ∷ [];
  usergroup = some (lit "DEFAULT");
  is_password_lifetime_check_enabled = some true;
  is_password_enabled = some false;
}

abbrev pub alice : Managed UserSpec UserObservation
alice = record {
  spec = record {
    for_provider = user_parameters;
    privilege_management_policy = lit "strict";
    namespace = lit "default";
  };
  status = user_observation;
  ready = none;
  history = [];
}

-- A cluster in which every secret and every provider is found.
abbrev pub cluster : Kube
cluster = record {
  get_secret = λ namespace name. ok ((lit "password", lit "Secret1") ∷ []);
  get_x509_provider = λ namespace name. ok name;
}

abbrev pub by_name : X509UserMapping
by_name = record { name = lit "IDP"; provider_ref = none; subject_name = lit "ANY" }

abbrev pub by_reference : X509UserMapping
by_reference = record {
  name = [];
  provider_ref = some (record { address = 7; name = lit "idp" });
  subject_name = [];
}

abbrev rows_at : List Row → List Stmt → List Row
rows_at rows [] = rows
rows_at rows (s ∷ h) = []

-- A database that answers the first statement of a connection with rows, and others with none.
abbrev pub answering_first : List Row → Database
answering_first rows = record {
  on_exec = λ h q. none;
  on_query = λ h q. ok (record { rows = rows_at rows h; broken = none });
}

abbrev pub bare_role : Managed RoleParameters RoleObservation
bare_role = record stale_role {
  spec = record role_parameters { ldap_groups = []; privileges = [] };
}

abbrev pub usergroup_without_parameters : Managed UsergroupParameters UsergroupObservation
usergroup_without_parameters = record stale_usergroup {
  spec = record (stale_usergroup.spec) { parameters = [] };
}

abbrev pub schema_s : Managed DbSchemaParameters DbSchemaObservation
schema_s = record {
  spec = record { schema_name = lit "S"; owner = lit "OWNER" };
  status = record { schema_name = []; owner = [] };
  ready = none;
  history = [];
}
