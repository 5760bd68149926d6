-- ===== src/Privilege/Queries.antt =====
-- PrivilegeClient: the queries of what is granted, and FilterManagedPrivileges.
pub mod Laws
use crossplane_provider_hana.Prelude.{
  Bool, ◌&&◌, ◌||◌, not, Option, none, some, List, [], ◌∷◌, ◌++◌, ◌==◌, if◌then◌else◌, map,
  contains,
}
use crossplane_provider_hana.Text.{Text, lit, text_eq, cut}
use crossplane_provider_hana.Errors.{Err, Result, ok, err, other}
use crossplane_provider_hana.Errors.{bind}
use crossplane_provider_hana.Sql.{
  Database, History, query, Rows, Row, scan_text, scan_bool, scan_null_text, null_text,
  wrong_columns,
}
use crossplane_provider_hana.Privilege.{
  Privilege, PrivilegeType, system, source, schema, object, usergroup, column_key, structured, Role,
  role_string, privilege_string, get_default_privilege,
}

pub data GranteeType : Type 0 where
  user role : GranteeType

abbrev pub grantee_type_text : GranteeType → Text
grantee_type_text user = lit "USER"
grantee_type_text role = lit "ROLE"

-- addGranteeQuery: a grantee with a dot names a schema too
abbrev grantee_filter : Text → GranteeType → Text → Option (Text × Text) → Text × List Text
grantee_filter query type grantee (some (schema_name, name)) = (
  query ++ lit " AND GRANTEE = ?" ++ lit " AND GRANTEE_SCHEMA_NAME = ?",
  grantee_type_text type ∷ name ∷ schema_name ∷ [],
)
grantee_filter query type grantee none =
    (query ++ lit " AND GRANTEE = ?", grantee_type_text type ∷ grantee ∷ [])

unfoldable pub add_grantee_query : Text → Text → GranteeType → Text × List Text
unfolding cut
add_grantee_query query grantee type = grantee_filter query type grantee (cut (lit ".") grantee)

abbrev pub row_privilege : Bool → PrivilegeType → Text → Text → Text → Privilege
row_privilege is_grantable type name identifier sub_identifier = record {
  type = type;
  name = name;
  identifier = identifier;
  sub_identifier = sub_identifier;
  is_grantable = is_grantable;
}

-- handlePrivilegeRows, once the row is scanned.
unfoldable pub privilege_of_row : Text → Text → Option Text → Option Text → Bool → Privilege
privilege_of_row object_type privilege schema_name object_name is_grantable =
    if object_type == lit "SYSTEMPRIVILEGE"
    then row_privilege is_grantable system privilege [] []
    else if object_type == lit "SCHEMA"
    then row_privilege is_grantable schema privilege (null_text schema_name) []
    else if object_type == lit "SOURCE"
    then row_privilege is_grantable source privilege (null_text object_name) []
    else if object_type == lit "USERGROUP"
    then row_privilege is_grantable usergroup privilege (null_text object_name) []
    else if object_type == lit "CLIENTSIDE ENCRYPTION COLUMN KEY"
    then row_privilege is_grantable column_key privilege (null_text object_name) []
    else if object_type == lit "STRUCTURED_PRIVILEGE"
    then row_privilege is_grantable structured (lit "STRUCTURED PRIVILEGE") (null_text object_name)
        []
    else if object_type == lit "PSE"
        || object_type == lit "JWT PROVIDER"
        || object_type == lit "SAML PROVIDER"
        || object_type == lit "X509 PROVIDER"
    then row_privilege is_grantable object privilege
        (object_type ++ lit " " ++ null_text object_name) []
    else row_privilege is_grantable object privilege (null_text schema_name) (null_text object_name)

abbrev scan_privilege : Row → Result Privilege
scan_privilege (object_type ∷ privilege ∷ schema_name ∷ object_name ∷ is_grantable ∷ []) =
    bind (scan_text object_type) λ t. bind (scan_text privilege) λ p.
      bind (scan_null_text schema_name) λ s.
        bind (scan_null_text object_name)
          λ n. bind (scan_bool is_grantable) λ g. ok (privilege_of_row t p s n g)
scan_privilege row = err wrong_columns

abbrev full_role_name : Option Text → Text → Text
full_role_name none role_name = role_name
full_role_name (some schema_name) role_name = schema_name ++ lit "." ++ role_name

abbrev scan_role : Row → Result Role
scan_role (schema_name ∷ role_name ∷ is_grantable ∷ []) = bind (scan_null_text schema_name) λ s.
    bind (scan_text role_name) λ n.
      bind (scan_bool is_grantable) λ g. ok (record { name = full_role_name s n; is_grantable = g })
scan_role row = err wrong_columns

-- The loop over the rows: what was read before a failure comes back with it.
unfoldable pub collect_rows :
    {A : Type 0} → (Row → Result A) → List Row → Option Err → List A × Option Err
collect_rows scan [] broken = ([], broken)
collect_rows scan (row ∷ rows) broken =
    let (found, failure) = collect_rows scan rows broken in
    elim (scan row) [ ok a ↦ (a ∷ found, failure) | err e ↦ ([], some e) ]

abbrev pub collect_query : {A : Type 0} → (Row → Result A) → Result Rows → List A × Option Err
collect_query scan (err e) = ([], some e)
collect_query scan (ok r) = collect_rows scan r.rows r.broken

-- A Go function that returns a value and an error.
abbrev pub Pair : Type 0 → Type 0 → Type 0
Pair S A = S → (A × Option Err) × S

module _ (db : Database) where
  unfoldable pub query_privileges : Text → GranteeType → Pair History (List Text)
  unfolding query add_grantee_query collect_rows scan_text scan_bool scan_null_text privilege_of_row
      privilege_string
  query_privileges grantee type h =
      let (text, args) =
        add_grantee_query
          (lit
            "SELECT OBJECT_TYPE, PRIVILEGE, SCHEMA_NAME, OBJECT_NAME, IS_GRANTABLE FROM GRANTED_PRIVILEGES WHERE GRANTEE_TYPE = ?")
          grantee type in
      let (answer, h') = query db text args h in
      let (found, failure) = collect_query scan_privilege answer in
      ((map privilege_string found, failure), h')

  unfoldable pub query_roles : Text → GranteeType → Pair History (List Text)
  unfolding query add_grantee_query collect_rows scan_text scan_bool scan_null_text role_string
  query_roles grantee type h =
      let (text, args) =
        add_grantee_query
          (lit
            "SELECT ROLE_SCHEMA_NAME, ROLE_NAME, IS_GRANTABLE FROM GRANTED_ROLES WHERE GRANTEE_TYPE = ?")
          grantee type in
      let (answer, h') = query db text args h in
      let (found, failure) = collect_query scan_role answer in
      ((map role_string found, failure), h')

-- FilterManagedPrivileges, on the privileges of an observation that is there.
unfoldable pub managed_privileges : List Text → List Text → Text → List Text → List Text
unfolding contains
managed_privileges spec_privileges prev_privileges default_privilege [] = []
managed_privileges spec_privileges prev_privileges default_privilege (p ∷ observed) =
    let rest = managed_privileges spec_privileges prev_privileges default_privilege observed in
    if not (p == default_privilege) && (contains spec_privileges p || contains prev_privileges p)
    then p ∷ rest
    else rest

unfoldable pub filter_managed_privileges :
    List Text → List Text → List Text → Text → Text → Result (List Text)
unfolding managed_privileges get_default_privilege
filter_managed_privileges observed spec_privileges prev_privileges policy default_schema =
    if policy == lit "strict"
    then ok observed
    else if policy == lit "lax"
    then ok (
        managed_privileges spec_privileges prev_privileges (get_default_privilege default_schema)
          observed)
    else err (other (lit "unknown privilege management policy: " ++ policy))
