-- ===== src/Clients/Rolegroup.antt =====
-- internal/clients/hana/rolegroup/rolegroup_client.go
use crossplane_provider_hana.Prelude.{false, not, [], ◌∷◌, ◌++◌, ◌==◌, if◌then◌else◌}
use crossplane_provider_hana.Text.{Text, lit, text_eq}
use crossplane_provider_hana.Errors.{Result, ok, err, wrap, is_no_rows, bind}
use crossplane_provider_hana.Exec.{or_fail}
use crossplane_provider_hana.Sql.{Sql, Database, exec, query_row, Row, scan_text, wrong_columns}
use crossplane_provider_hana.Apis.{RolegroupParameters, RolegroupObservation}
use crossplane_provider_hana.Privilege.{quoted}

abbrev no_rolegroup : RolegroupObservation
no_rolegroup = record { rolegroup_name = []; disable_role_admin = false }

abbrev scan_rolegroup : Row → Result RolegroupObservation
scan_rolegroup (name ∷ enabled ∷ []) = bind (scan_text name) λ n.
    bind (scan_text enabled)
      λ e. ok (record { rolegroup_name = n; disable_role_admin = e == lit "FALSE" })
scan_rolegroup row = err wrong_columns

abbrev found_rolegroup : Result RolegroupObservation → Result RolegroupObservation
found_rolegroup (ok observed) = ok observed
found_rolegroup (err e) = if is_no_rows e then ok no_rolegroup else err e

unfoldable pub create_query : RolegroupParameters → Text
unfolding quoted
create_query parameters =
    let query = lit "CREATE ROLEGROUP " ++ quoted parameters.rolegroup_name in
    let query1 =
      if parameters.for_grants_on_tenant_objects
      then query ++ lit " FOR GRANTS ON TENANT OBJECTS"
      else query in
    if parameters.no_grant_to_creator
    then query1 ++ lit " NO GRANT TO CREATOR"
    else if not parameters.disable_role_admin
    then query1 ++ lit " ENABLE ROLE ADMIN"
    else query1

module _ (db : Database) where
  unfoldable pub read : RolegroupParameters → Sql RolegroupObservation
  unfolding query_row is_no_rows scan_text
  read parameters h =
      let (row, h') =
        query_row db
          (lit
            "SELECT ROLEGROUP_NAME, IS_ROLE_ADMIN_ENABLED FROM SYS.ROLEGROUPS WHERE ROLEGROUP_NAME = ?")
          (parameters.rolegroup_name ∷ []) h in
      (found_rolegroup (bind row scan_rolegroup), h')

  unfoldable pub create : RolegroupParameters → Sql (Unit {0})
  unfolding exec create_query
  create parameters = exec db (create_query parameters)

  unfoldable pub update_disable_role_admin : RolegroupParameters → Sql (Unit {0})
  unfolding exec quoted
  update_disable_role_admin parameters =
      or_fail (wrap (lit "failed to update disable role admin: ")) (
        exec db (
          lit "ALTER ROLEGROUP "
          ++ quoted parameters.rolegroup_name
          ++ (if parameters.disable_role_admin
              then lit " DISABLE ROLE ADMIN"
              else lit " ENABLE ROLE ADMIN")))

  unfoldable pub delete : RolegroupParameters → Sql (Unit {0})
  unfolding exec quoted
  delete parameters = exec db (lit "DROP ROLEGROUP " ++ quoted parameters.rolegroup_name)
