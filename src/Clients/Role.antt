-- ===== src/Clients/Role.antt =====
-- internal/clients/hana/role/role_client.go
use crossplane_provider_hana.Prelude.{not, Option, none, some, List, [], ◌∷◌, ◌++◌, if◌then◌else◌}
use crossplane_provider_hana.Text.{Text, lit, text_eq, trim_suffix, is_empty}
use crossplane_provider_hana.Errors.{Err, Result, ok, err, wrap, is_no_rows, bind}
use crossplane_provider_hana.Exec.{pure, fail, lift, ◌>>=◌, ◌>>◌, or_fail}
use crossplane_provider_hana.Sql.{
  Sql, Database, exec, query, query_row, Rows, Row, scan_text, scan_null_text, null_text,
  wrong_columns,
}
use crossplane_provider_hana.GoMap.{MapOrder}
use crossplane_provider_hana.Utils.{escape_single_quotes, escape_double_quotes}
use crossplane_provider_hana.Apis.{RoleParameters, RoleObservation}
use crossplane_provider_hana.Privilege.{quoted}
use crossplane_provider_hana.Privilege.Client.{grant_privileges, revoke_privileges, is_nil}
use crossplane_provider_hana.Privilege.Queries.{query_privileges, role}

-- getRoleName
unfoldable pub get_role_name : Text → Text → Text
unfolding quoted is_empty
get_role_name schema_name role_name =
    if not (is_empty schema_name)
    then quoted schema_name ++ lit "." ++ quoted role_name
    else quoted role_name

-- A loop `query += fmt.Sprintf(" '%s',", …)`.
unfoldable pub add_groups : Text → List Text → Text
unfolding escape_single_quotes
add_groups query [] = query
add_groups query (g ∷ gs) = add_groups (query ++ lit " '" ++ escape_single_quotes g ++ lit "',") gs

abbrev group_list : Text → List Text → Text
group_list query groups = trim_suffix (lit ",") (add_groups query groups)

unfoldable pub create_query : RoleParameters → Text
unfolding get_role_name add_groups trim_suffix escape_double_quotes is_empty
create_query parameters =
    let query = lit "CREATE ROLE " ++ get_role_name parameters.schema parameters.role_name in
    let query1 =
      if is_nil parameters.ldap_groups
      then query
      else group_list (query ++ lit " LDAP GROUP") parameters.ldap_groups in
    let query2 =
      if parameters.no_grant_to_creator then query1 ++ lit " NO GRANT TO CREATOR" else query1 in
    if not (is_empty parameters.rolegroup)
    then query2 ++ lit " SET ROLEGROUP \"" ++ escape_double_quotes parameters.rolegroup ++ lit "\""
    else query2

abbrev scan_role_row : Row → Result RoleObservation
scan_role_row (schema ∷ role_name ∷ rolegroup_name ∷ []) = bind (scan_null_text schema) λ s.
    bind (scan_text role_name) λ n. bind (scan_null_text rolegroup_name) λ g. ok (record {
      role_name = n;
      schema = null_text s;
      ldap_groups = [];
      privileges = [];
      rolegroup = null_text g;
    })
scan_role_row row = err wrong_columns

abbrev no_role : RoleObservation
no_role = record { role_name = []; schema = []; ldap_groups = []; privileges = []; rolegroup = [] }

-- A row whose Scan fails is passed over.
unfoldable pub ldap_rows : List Row → List Text
unfolding scan_text
ldap_rows [] = []
ldap_rows ((role_name ∷ ldap_group ∷ []) ∷ rows) =
    let rest = ldap_rows rows in
    elim (bind (scan_text role_name) λ _. scan_text ldap_group) [ ok g ↦ g ∷ rest | err e ↦ rest ]
ldap_rows (row ∷ rows) = ldap_rows rows

abbrev ldap_result : Rows → Result (List Text)
ldap_result r = elim r.broken [ none ↦ ok (ldap_rows r.rows) | some e ↦ err e ]

abbrev all_or_error : List Text × Option Err → Result (List Text)
all_or_error (found, none) = ok found
all_or_error (found, some e) = err e

module _ (db : Database) where
  unfoldable pub observe_ldap_groups : Text → Sql (List Text)
  unfolding query ldap_rows
  observe_ldap_groups role_name = do
    rows ←
        query db
          (lit "SELECT ROLE_NAME, LDAP_GROUP_NAME FROM SYS.ROLE_LDAP_GROUPS WHERE ROLE_NAME = ?")
          (role_name ∷ [])
    lift (ldap_result rows)

  unfoldable observe_more : RoleParameters → RoleObservation → Sql RoleObservation
  unfolding observe_ldap_groups query_privileges get_role_name
  observe_more parameters observed = do
    groups ← observe_ldap_groups parameters.role_name
    privileges ← λ h.
        let (found, h') =
          query_privileges db (get_role_name parameters.schema parameters.role_name) role h in
        (all_or_error found, h')
    pure (record observed { ldap_groups = groups; privileges = privileges })

  abbrev after_row : RoleParameters → Result RoleObservation → Sql RoleObservation
  after_row parameters (ok observed) = observe_more parameters observed
  after_row parameters (err e) = if is_no_rows e then pure no_role else fail e

  -- Read; what comes back beside an error is used by no caller.
  unfoldable pub read : RoleParameters → Sql RoleObservation
  unfolding query_row observe_more is_no_rows scan_text scan_null_text
  read parameters h =
      let (row, h') =
        query_row db
          (lit
            "SELECT ROLE_SCHEMA_NAME, ROLE_NAME, ROLEGROUP_NAME FROM SYS.ROLES WHERE ROLE_NAME = ?")
          (parameters.role_name ∷ []) h in
      after_row parameters (bind row scan_role_row) h'

module _ (db : Database) (o : MapOrder) (username : Text) where
  unfoldable pub create : RoleParameters → Sql (Unit {0})
  unfolding exec create_query grant_privileges get_role_name
  create parameters = do
    exec db (create_query parameters)
    if is_nil parameters.privileges
        then pure tt
        else or_fail (wrap (lit "failed to grant privileges: ")) (
            grant_privileges db o username (get_role_name parameters.schema parameters.role_name)
              parameters.privileges)

  unfoldable pub update_privileges : RoleParameters → List Text → List Text → Sql (Unit {0})
  unfolding grant_privileges revoke_privileges get_role_name
  update_privileges parameters to_grant to_revoke = do
    let grantee = get_role_name parameters.schema parameters.role_name
    if is_nil to_grant
        then pure tt
        else or_fail (wrap (lit "failed to grant privileges: "))
            (grant_privileges db o username grantee to_grant)
    if is_nil to_revoke
        then pure tt
        else or_fail (wrap (lit "failed to revoke privileges: "))
            (revoke_privileges db o username grantee to_revoke)

module _ (db : Database) where
  unfoldable pub update_ldap_groups : RoleParameters → List Text → List Text → Sql (Unit {0})
  unfolding exec get_role_name add_groups trim_suffix
  update_ldap_groups parameters groups_to_add groups_to_remove = do
    let role_name = get_role_name parameters.schema parameters.role_name
    if is_nil groups_to_add
        then pure tt
        else exec db
            (group_list (lit "ALTER ROLE " ++ role_name ++ lit " ADD LDAP GROUP") groups_to_add)
    if is_nil groups_to_remove
        then pure tt
        else exec db
            (group_list (lit "ALTER ROLE " ++ role_name ++ lit " DROP LDAP GROUP") groups_to_remove)

  unfoldable pub update_rolegroup : RoleParameters → Sql (Unit {0})
  unfolding exec get_role_name escape_double_quotes is_empty
  update_rolegroup parameters =
      let role_name = get_role_name parameters.schema parameters.role_name in
      or_fail (wrap (lit "failed to update rolegroup: ")) (
        exec db (
          if not (is_empty parameters.rolegroup)
          then lit "ALTER ROLE "
            ++ role_name
            ++ lit " SET ROLEGROUP \""
            ++ escape_double_quotes parameters.rolegroup
            ++ lit "\""
          else lit "ALTER ROLE " ++ role_name ++ lit " UNSET ROLEGROUP"))

  unfoldable pub delete : RoleParameters → Sql (Unit {0})
  unfolding exec get_role_name
  delete parameters =
      exec db (lit "DROP ROLE " ++ get_role_name parameters.schema parameters.role_name)
