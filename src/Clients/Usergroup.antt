-- ===== src/Clients/Usergroup.antt =====
-- internal/clients/hana/usergroup/usergroup_client.go
use crossplane_provider_hana.Prelude.{
  false, not, none, some, List, [], ◌∷◌, ◌++◌, ◌==◌, if◌then◌else◌,
}
use crossplane_provider_hana.Text.{Text, lit, text_eq, trim_suffix, is_empty}
use crossplane_provider_hana.Errors.{Result, ok, err, wrap, is_no_rows, bind}
use crossplane_provider_hana.Exec.{pure, fail, lift, ◌>>=◌, or_fail}
use crossplane_provider_hana.Sql.{
  Sql, Database, exec, query, query_row, Rows, Row, scan_text, wrong_columns,
}
use crossplane_provider_hana.GoMap.{GoMap, MapOrder, assign}
use crossplane_provider_hana.Utils.{escape_single_quotes}
use crossplane_provider_hana.Apis.{UsergroupParameters, UsergroupObservation}
use crossplane_provider_hana.Privilege.{quoted}
use crossplane_provider_hana.Privilege.Client.{is_nil}

abbrev no_usergroup : UsergroupObservation
no_usergroup = record { usergroup_name = []; disable_user_admin = false; parameters = [] }

abbrev scan_usergroup : Row → Result UsergroupObservation
scan_usergroup (name ∷ enabled ∷ []) = bind (scan_text name) λ n.
    bind (scan_text enabled) λ e.
      ok (record { usergroup_name = n; disable_user_admin = e == lit "FALSE"; parameters = [] })
scan_usergroup row = err wrong_columns

abbrev scan_parameter : Row → Result (Text × Text)
scan_parameter (name ∷ parameter ∷ value ∷ []) =
    bind (scan_text name) λ _. bind (scan_text parameter) λ p. bind (scan_text value) λ v. ok (p, v)
scan_parameter row = err wrong_columns

abbrev pub assign_scanned : Result (Text × Text) → GoMap Text Text → GoMap Text Text
assign_scanned (ok (p, v)) parameters = assign p v parameters
assign_scanned (err e) parameters = parameters

-- The loop over the parameters; a row whose Scan fails is passed over.
unfoldable pub parameter_rows : List Row → GoMap Text Text → GoMap Text Text
unfolding scan_text assign
parameter_rows [] parameters = parameters
parameter_rows (row ∷ rows) parameters =
    parameter_rows rows (assign_scanned (scan_parameter row) parameters)

abbrev with_parameters : UsergroupObservation → Rows → Result UsergroupObservation
with_parameters observed r = elim r.broken [
  | none ↦ ok (record observed { parameters = parameter_rows r.rows [] })
  | some e ↦ err e
]

module _ (db : Database) where
  abbrev after_row : UsergroupParameters → Result UsergroupObservation → Sql UsergroupObservation
  after_row parameters (ok observed) = do
    rows ←
        query db
          (lit
            "SELECT USERGROUP_NAME, PARAMETER_NAME, PARAMETER_VALUE FROM SYS.USERGROUP_PARAMETERS WHERE USERGROUP_NAME = ?")
          (parameters.usergroup_name ∷ [])
    lift (with_parameters observed rows)
  after_row parameters (err e) = if is_no_rows e then pure no_usergroup else fail e

  unfoldable pub read : UsergroupParameters → Sql UsergroupObservation
  unfolding query_row is_no_rows scan_text parameter_rows
  read parameters h =
      let (row, h') =
        query_row db
          (lit
            "SELECT USERGROUP_NAME, IS_USER_ADMIN_ENABLED FROM SYS.USERGROUPS WHERE USERGROUP_NAME = ?")
          (parameters.usergroup_name ∷ []) h in
      after_row parameters (bind row scan_usergroup) h'

-- The loops that print the parameters: Create escapes the quotes, UpdateParameters does not.
unfoldable pub add_escaped : Text → List (Text × Text) → Text
unfolding escape_single_quotes
add_escaped query [] = query
add_escaped query ((key, value) ∷ entries) =
    add_escaped
      (query
        ++ lit " '"
        ++ escape_single_quotes key
        ++ lit "' = '"
        ++ escape_single_quotes value
        ++ lit "',")
      entries

unfoldable pub add_verbatim : Text → List (Text × Text) → Text
add_verbatim query [] = query
add_verbatim query ((key, value) ∷ entries) =
    add_verbatim (query ++ lit " '" ++ key ++ lit "' = '" ++ value ++ lit "',") entries

unfoldable pub create_query : MapOrder → UsergroupParameters → Text
unfolding quoted add_escaped trim_suffix is_empty
create_query o parameters =
    let query = lit "CREATE USERGROUP " ++ quoted parameters.usergroup_name in
    let query1 =
      if parameters.disable_user_admin then query ++ lit " DISABLE USER ADMIN" else query in
    let query2 =
      if parameters.no_grant_to_creator then query1 ++ lit " NO GRANT TO CREATOR" else query1 in
    let query3 =
      if is_nil parameters.parameters
      then query2
      else trim_suffix (lit ",") (
          add_escaped (query2 ++ lit " SET PARAMETER")
            (o.range (Text × Text) parameters.parameters)) in
    if not (is_empty parameters.enable_parameter_set)
    then query3 ++ lit " ENABLE PARAMETER SET '" ++ parameters.enable_parameter_set ++ lit "'"
    else query3

unfoldable pub update_parameters_query : MapOrder → UsergroupParameters → GoMap Text Text → Text
unfolding quoted add_verbatim trim_suffix
update_parameters_query o parameters changed_parameters = trim_suffix (lit ",") (
    add_verbatim
      (lit "ALTER USERGROUP " ++ quoted parameters.usergroup_name ++ lit " SET PARAMETER")
      (o.range (Text × Text) changed_parameters))

module _ (db : Database) where
  unfoldable pub create : MapOrder → UsergroupParameters → Sql (Unit {0})
  unfolding exec create_query
  create o parameters = exec db (create_query o parameters)

  unfoldable pub update_disable_user_admin : UsergroupParameters → Sql (Unit {0})
  unfolding exec quoted
  update_disable_user_admin parameters =
      or_fail (wrap (lit "failed to update disable user admin: ")) (
        exec db (
          lit "ALTER USERGROUP "
          ++ quoted parameters.usergroup_name
          ++ (if parameters.disable_user_admin
              then lit " DISABLE USER ADMIN"
              else lit " ENABLE USER ADMIN")))

  unfoldable pub update_parameters :
      MapOrder → UsergroupParameters → GoMap Text Text → Sql (Unit {0})
  unfolding exec update_parameters_query
  update_parameters o parameters changed_parameters =
      or_fail (wrap (lit "failed to update parameters: "))
        (exec db (update_parameters_query o parameters changed_parameters))

  unfoldable pub delete : UsergroupParameters → Sql (Unit {0})
  unfolding exec quoted
  delete parameters = exec db (lit "DROP USERGROUP " ++ quoted parameters.usergroup_name)
