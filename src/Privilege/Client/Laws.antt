-- ===== src/Privilege/Client/Laws.antt =====
-- What the statements of the PrivilegeClient leave in the history of the connection.
use crossplane_provider_hana.Prelude.{
  none, some, List, [], ◌∷◌, ◌++◌, map, ◌≡◌, sym, ap, ◌∙◌, arith, append_assoc, append-nil,
  Option-cases, inl, inr,
}
use crossplane_provider_hana.Text.{Text, text_eq}
use crossplane_provider_hana.Errors.{Result, ok, err, Err}
use crossplane_provider_hana.Exec.{lift, bind_ok}
use crossplane_provider_hana.Sql.{Database, History, exec, plain}
use crossplane_provider_hana.GoMap.{MapOrder}
use crossplane_provider_hana.Privilege.Client.{exec_all, grant_query, grant_privileges}
use crossplane_provider_hana.Privilege.Groups.{PrivilegeGroup, group_privileges_by_type}

-- A loop of statements that ran: the ones it sent are a prefix of the list, in its order; it
-- succeeds where it sent them all, and else the last one sent is one that the database refused.
pub data Ran (db : Database) : List Text → History → Result (Unit {0}) → History → Type 0 where
  done : (h : History) → Ran db [] h (ok tt) h
  refused :
      (q : Text) (qs : List Text) (h : History) (e : Err)
      → db.on_exec h (plain q) ≡ some e
      → Ran db (q ∷ qs) h (err e) (h ++ plain q ∷ [])
  sent :
      (q : Text) (qs : List Text) (h : History) (r : Result (Unit {0})) (h' : History)
      → db.on_exec h (plain q) ≡ none
      → Ran db qs (h ++ plain q ∷ []) r h'
      → Ran db (q ∷ qs) h r h'

module _ (db : Database) where
  -- On success every statement was sent, in the order of the list.
  pub exec_all_complete :
      (qs : List Text) (h : History)
      → (exec_all db qs h).0 ≡ ok tt
      → (exec_all db qs h).1 ≡ h ++ map plain qs
  unfolding exec_all exec
  exec_all_complete [] h e = sym (append-nil h)
  exec_all_complete (q ∷ qs) h e = elim (Option-cases (db.on_exec h (plain q))) [
    | inl fine ↦ rw fine (
        exec_all_complete qs (h ++ plain q ∷ []) (ground arith)
        ∙ append_assoc h (plain q ∷ []) (map plain qs))
    | inr (x, bad) ↦ absurd (ground arith)
  ]

  -- The loop of statements stops at the first that the database refuses, and returns that refusal.
  pub exec_all-Ran :
      (qs : List Text) (h : History) → Ran db qs h (exec_all db qs h).0 (exec_all db qs h).1
  unfolding exec_all exec
  exec_all-Ran [] h = done h
  exec_all-Ran (q ∷ qs) h = elim (Option-cases (db.on_exec h (plain q))) [
    | inl fine ↦ rw fine (sent q qs h _ _ fine (exec_all-Ran qs (h ++ plain q ∷ [])))
    | inr (e, bad) ↦ rw bad (refused q qs h e bad)
  ]

  -- GrantPrivileges that succeeds has parsed all the privileges, and has sent one statement for each
  -- of their groups, in the order in which they were visited, and nothing else.
  pub grant_privileges_complete :
      (o : MapOrder) (grantor grantee : Text) (p : Text) (ps : List Text) (h : History)
      → (grant_privileges db o grantor grantee (p ∷ ps) h).0 ≡ ok tt
      → (groups : List PrivilegeGroup) × (group_privileges_by_type o (p ∷ ps) grantor ≡ ok groups)
        × ((grant_privileges db o grantor grantee (p ∷ ps) h).1
            ≡ h ++ map plain (map (grant_query grantee) groups))
  unfolding grant_privileges
  grant_privileges_complete o grantor grantee p ps h e =
      let (groups, parsed, rest) =
        bind_ok (lift {S = History} (group_privileges_by_type o (p ∷ ps) grantor))
          (λ groups. exec_all db (map (grant_query grantee) groups)) h e in
      (
        groups,
        parsed,
        ap (λ (r : Result (Unit {0}) × History). r.1) rest
            ∙ exec_all_complete (map (grant_query grantee) groups) h
                (ap (λ (r : Result (Unit {0}) × History). r.0) (sym rest) ∙ e),
      )
