-- ===== src/Clients/Dbschema.antt =====
-- internal/clients/hana/dbschema/dbschema_client.go
use crossplane_provider_hana.Prelude.{not, [], ◌∷◌, ◌++◌, if◌then◌else◌}
use crossplane_provider_hana.Text.{Text, lit, is_empty}
use crossplane_provider_hana.Errors.{Result, ok, err, is_no_rows, bind}
use crossplane_provider_hana.Sql.{Sql, Database, exec, query_row, Row, scan_text, wrong_columns}
use crossplane_provider_hana.Apis.{DbSchemaParameters, DbSchemaObservation}
use crossplane_provider_hana.Privilege.{quoted}

abbrev scan_schema : Row → Result DbSchemaObservation
scan_schema (schema_name ∷ schema_owner ∷ []) =
    bind (scan_text schema_name)
      λ n. bind (scan_text schema_owner) λ w. ok (record { schema_name = n; owner = w })
scan_schema row = err wrong_columns

-- The observation stays empty where there is no row.
abbrev or_no_schema : Result DbSchemaObservation → Result DbSchemaObservation
or_no_schema (ok observed) = ok observed
or_no_schema (err e) = if is_no_rows e then ok (record { schema_name = []; owner = [] }) else err e

unfoldable pub create_query : DbSchemaParameters → Text
unfolding quoted is_empty
create_query parameters =
    let query = lit "CREATE SCHEMA " ++ quoted parameters.schema_name in
    if not (is_empty parameters.owner)
    then query ++ lit " OWNED BY " ++ quoted parameters.owner
    else query

module _ (db : Database) where
  unfoldable pub read : DbSchemaParameters → Sql DbSchemaObservation
  unfolding query_row is_no_rows scan_text
  read parameters h =
      let (row, h') =
        query_row db (lit "SELECT SCHEMA_NAME, SCHEMA_OWNER FROM SYS.SCHEMAS WHERE SCHEMA_NAME = ?")
          (parameters.schema_name ∷ []) h in
      (or_no_schema (bind row scan_schema), h')

  unfoldable pub create : DbSchemaParameters → Sql (Unit {0})
  unfolding exec create_query
  create parameters = exec db (create_query parameters)

  unfoldable pub delete : DbSchemaParameters → Sql (Unit {0})
  unfolding exec quoted
  delete parameters = exec db (lit "DROP SCHEMA " ++ quoted parameters.schema_name)
