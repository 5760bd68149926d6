-- ===== src/Controllers/Dbschema/Laws.antt =====
-- What Observe reports of a schema that the controller has created, or dropped.
use crossplane_provider_hana.Prelude.{
  ℕ_eq, Bool, true, false, if◌then◌else◌, ◌≡◌, refl, sym, ap, arith, ◌∙◌, List, [], ◌∷◌, ◌++◌, ◌==◌,
  none, Option, some, beq_self, Bool-cases, Option-cases, inl, inr,
}
use crossplane_provider_hana.Text.{Text, lit, text_eq, is_empty}
use crossplane_provider_hana.Errors.{Err, ok, is_no_rows}
use crossplane_provider_hana.Exec.{or_fail}
use crossplane_provider_hana.Sql.{
  exec, query_row, scan_text, Database, History, Kind, Stmt, str, plain,
}
use crossplane_provider_hana.Apis.{creating, deleting}
use crossplane_provider_hana.Privilege.{quoted}
use crossplane_provider_hana.Clients.Dbschema.{create_query}
use crossplane_provider_hana.Controllers.{on_db}
use crossplane_provider_hana.Controllers.Dbschema.{DbSchemaResource, observe, create, delete}

-- The query of SYS.SCHEMAS for one name.
abbrev pub schema_query : Text → Stmt
schema_query name = record {
  kind = Kind.statement;
  sql = lit "SELECT SCHEMA_NAME, SCHEMA_OWNER FROM SYS.SCHEMAS WHERE SCHEMA_NAME = ?";
  args = name ∷ [];
}

-- What the database documents of a schema's name: SYS.SCHEMAS lists the schema under the name while
-- there is one, CREATE SCHEMA that is accepted brings it about, and DROP SCHEMA takes it away.
pub record IsCatalog (db : Database) (name : Text) : Type 0 where
  pub has_schema : History → Bool
  pub owner : History → Text
  pub listed :
      (h : History)
      → db.on_query h (schema_query name)
        ≡ ok (record {
          rows = if has_schema h then (str name ∷ str (owner h) ∷ []) ∷ [] else [];
          broken = none;
        })
  pub created :
      (h : History)
      → db.on_exec h (plain (lit "CREATE SCHEMA " ++ quoted name)) ≡ none
      → has_schema (h ++ plain (lit "CREATE SCHEMA " ++ quoted name) ∷ []) ≡ true
  pub created_owned :
      (h : History) (owned : Text)
      → db.on_exec h
          (plain ((lit "CREATE SCHEMA " ++ quoted name) ++ lit " OWNED BY " ++ quoted owned))
        ≡ none
      → has_schema (
          h
          ++ plain ((lit "CREATE SCHEMA " ++ quoted name) ++ lit " OWNED BY " ++ quoted owned) ∷ [])
        ≡ true
  pub dropped :
      (h : History)
      → db.on_exec h (plain (lit "DROP SCHEMA " ++ quoted name)) ≡ none
      → has_schema (h ++ plain (lit "DROP SCHEMA " ++ quoted name) ∷ []) ≡ false

no_name : (name : Text) → is_empty name ≡ false → ([] == name) ≡ false
unfolding is_empty crossplane_provider_hana.Prelude.list_eq
no_name [] h = cc
no_name (x ∷ name) h = refl

module _ (db : Database) (cr : DbSchemaResource) (c : IsCatalog db cr.spec.schema_name) where
  observe_there :
      c.has_schema cr.history ≡ true
      → (observe db cr).0 ≡ ok (record { resource_exists = true; resource_up_to_date = true })
  unfolding observe crossplane_provider_hana.Clients.Dbschema.read query_row is_no_rows scan_text
  observe_there t = rw (c.listed cr.history) (rw t (rw (beq_self cr.spec.schema_name) refl))

  observe_absent :
      is_empty cr.spec.schema_name ≡ false
      → c.has_schema cr.history ≡ false
      → (observe db cr).0 ≡ ok (record { resource_exists = false; resource_up_to_date = false })
  unfolding observe crossplane_provider_hana.Clients.Dbschema.read query_row is_no_rows scan_text
  observe_absent n f =
      rw (c.listed cr.history) (rw f (ground (arith, no_name cr.spec.schema_name n)))

module _ (db : Database) where
  accepted :
      (label : Err → Err) (q : Text) (s : DbSchemaResource)
      → (or_fail label (on_db (exec db q)) s).0 ≡ ok tt
      → db.on_exec s.history (plain q) ≡ none
  unfolding exec
  accepted label q s h = elim (Option-cases (db.on_exec s.history (plain q))) [
    | inl e ↦ e
    | inr (x, e) ↦ absurd (ground (arith, e))
  ]

module _ (db : Database) (cr : DbSchemaResource) (c : IsCatalog db cr.spec.schema_name) where
  created_query :
      db.on_exec cr.history (plain (create_query cr.spec)) ≡ none
      → c.has_schema (cr.history ++ plain (create_query cr.spec) ∷ []) ≡ true
  unfolding create_query
  created_query a = elim (Bool-cases (is_empty cr.spec.owner)) [
    | inl bare ↦
        let q : create_query cr.spec ≡ lit "CREATE SCHEMA " ++ quoted cr.spec.schema_name =
          rw bare refl in
        rw q (c.created cr.history (rw (← q) a))
    | inr owned ↦
        let q : create_query cr.spec
            ≡ (lit "CREATE SCHEMA " ++ quoted cr.spec.schema_name)
              ++ lit " OWNED BY "
              ++ quoted cr.spec.owner =
          rw owned refl in
        rw q (c.created_owned cr.history cr.spec.owner (rw (← q) a))
  ]

  created_then_listed : (create db cr).0 ≡ ok tt → c.has_schema (create db cr).1.history ≡ true
  unfolding create crossplane_provider_hana.Clients.Dbschema.create
  created_then_listed h =
      created_query (accepted db _ (create_query cr.spec) (record cr { ready = some creating }) h)

  deleted_then_not_listed : (delete db cr).0 ≡ ok tt → c.has_schema (delete db cr).1.history ≡ false
  unfolding delete crossplane_provider_hana.Clients.Dbschema.delete
  deleted_then_not_listed h = c.dropped cr.history (
      accepted db _ (lit "DROP SCHEMA " ++ quoted cr.spec.schema_name)
        (record cr { ready = some deleting }) h)

-- Where the database lists the schema of the name while there is one: after a Create that succeeds,
-- Observe reports the schema as there and up to date, whoever its owner is.
pub dbschema_create-observe :
    (db : Database) (cr : DbSchemaResource)
    → IsCatalog db cr.spec.schema_name
    → (create db cr).0 ≡ ok tt
    → (observe db (create db cr).1).0
      ≡ ok (record { resource_exists = true; resource_up_to_date = true })
unfolding create
dbschema_create-observe db cr c h =
    observe_there db (create db cr).1 c (created_then_listed db cr c h)

-- Where the database lists the schema of the name while there is one, and the name is not empty:
-- after a Delete that succeeds, Observe reports that the schema is not there.
pub dbschema_delete-observe :
    (db : Database) (cr : DbSchemaResource)
    → IsCatalog db cr.spec.schema_name
    → is_empty cr.spec.schema_name ≡ false
    → (delete db cr).0 ≡ ok tt
    → (observe db (delete db cr).1).0
      ≡ ok (record { resource_exists = false; resource_up_to_date = false })
unfolding delete
dbschema_delete-observe db cr c n h =
    observe_absent db (delete db cr).1 c n (deleted_then_not_listed db cr c h)
