-- ===== src/Tests/Schemas.antt =====
-- The theorem on database schemas, applied to a database that keeps one schema.
use crossplane_provider_hana.Prelude.{
  ℕ_eq, Bool, true, false, if◌then◌else◌, ◌≡◌, refl, List, [], ◌∷◌, ◌++◌, ◌==◌, none, ◌∙◌,
}
use crossplane_provider_hana.Text.{Text, lit, text_eq, has_prefix}
use crossplane_provider_hana.Errors.{ok}
use crossplane_provider_hana.Sql.{Database, History, Stmt, str, plain}
use crossplane_provider_hana.Controllers.Dbschema.{observe, create, delete}
use crossplane_provider_hana.Controllers.Dbschema.Laws.{
  IsCatalog, dbschema_create-observe, dbschema_delete-observe,
}
use crossplane_provider_hana.Tests.Data.{schema_s}

abbrev kept_after : Bool → Stmt → Bool
kept_after b q =
    if q.sql == lit "DROP SCHEMA \"S\""
    then false
    else if has_prefix (lit "CREATE SCHEMA \"S\"") q.sql
    then true
    else b

abbrev kept : Bool → History → Bool
kept b [] = b
kept b (q ∷ h) = kept (kept_after b q) h

kept-append : (b : Bool) (h : History) (q : Stmt) → kept b (h ++ q ∷ []) ≡ kept_after (kept b h) q
kept-append b [] q = refl
kept-append b (r ∷ h) q = kept-append (kept_after b r) h q

-- A database that accepts every statement and knows of the schema S.
abbrev one_schema : Database
one_schema = record {
  on_exec = λ h q. none;
  on_query = λ h q. ok (record {
    rows = if kept false h then (str (lit "S") ∷ str (lit "OTHER") ∷ []) ∷ [] else [];
    broken = none;
  });
}

one_schema-IsCatalog : IsCatalog one_schema (lit "S")
unfolding crossplane_provider_hana.Privilege.quoted crossplane_provider_hana.Text.replace_all
    has_prefix crossplane_provider_hana.Prelude.list_eq
one_schema-IsCatalog = record {
  has_schema = λ h. kept false h;
  owner = λ h. lit "OTHER";
  listed = λ h. refl;
  created = λ h a. kept-append false h _;
  created_owned = λ h owned a. kept-append false h _;
  dropped = λ h a. kept-append false h _;
}

dbschema_create-observe_example :
    (observe one_schema (create one_schema schema_s).1).0
    ≡ ok (record { resource_exists = true; resource_up_to_date = true })
unfolding create crossplane_provider_hana.Clients.Dbschema.create crossplane_provider_hana.Sql.exec
dbschema_create-observe_example =
    dbschema_create-observe one_schema schema_s one_schema-IsCatalog refl

dbschema_delete-observe_example :
    (observe one_schema (delete one_schema schema_s).1).0
    ≡ ok (record { resource_exists = false; resource_up_to_date = false })
unfolding delete crossplane_provider_hana.Clients.Dbschema.delete crossplane_provider_hana.Sql.exec
    crossplane_provider_hana.Text.is_empty
dbschema_delete-observe_example =
    dbschema_delete-observe one_schema schema_s one_schema-IsCatalog refl refl
