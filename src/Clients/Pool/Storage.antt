-- ===== src/Clients/Pool/Storage.antt =====
-- Which connection Connect returns, and which ones it closes.
use crossplane_provider_hana.Prelude.{
  ℕ, suc, Option, none, some, List, [], ◌∷◌, ◌++◌, true, not, ◌≡◌, refl, ap, arith, ◌∙◌, leb, ℕ_eq,
  contains, contains-append, beq_self,
}
use crossplane_provider_hana.Text.{Text, text_eq}
use crossplane_provider_hana.Errors.{Err, ok}
use crossplane_provider_hana.Exec.{◌>>=◌}
use crossplane_provider_hana.GoMap.{GoMap, lookup, assign}
use crossplane_provider_hana.GoMap.Laws.{lookup-assign}
use crossplane_provider_hana.Clients.Pool.Laws.{open_next, pings_added}
use crossplane_provider_hana.Clients.Pool.{
  Libraries, Pool, Data, swap, pooled, reconnect, connect, dsn_of, hash_of, close_loaded, pinged,
  opened, answered, answer_of, or_reconnect,
}

lookup_assigned : (k : Text) (db : ℕ) (m : GoMap Text ℕ) → lookup (assign k db m) k ≡ some db
lookup_assigned k db m = lookup-assign k k db m ∙ rw (beq_self k) refl

contains_last : (xs : List ℕ) (c : ℕ) → contains (xs ++ c ∷ []) c ≡ true
unfolding contains
contains_last xs c = ground (arith, contains-append xs (c ∷ []) c)

-- A connection that is returned stands under its key; the one that was there is closed.
record IsStored (p q : Pool) (k : Text) (db : ℕ) : Type 0 where
  dbs : q.dbs ≡ assign k db p.dbs
  closed : q.closed ≡ close_loaded p.closed (lookup p.dbs k)
  salt : q.salt ≡ p.salt

module _ (l : Libraries) where
  pinged-IsStored :
      (k : Text) (p : Pool) (db : ℕ) (r : Option Err) {c : ℕ}
      → (pinged l k db r p).0 ≡ ok c
      → IsStored p (pinged l k db r p).1 k c
  unfolding swap
  pinged-IsStored k p db none {c} h =
      let same : db ≡ c = ground arith in
      record { dbs = ap (λ (x : ℕ). assign k x p.dbs) same; closed = refl; salt = refl }
  pinged-IsStored k p db (some e) h = cc

  opened-IsStored :
      (k : Text) (p : Pool) (r : Option Err) {c : ℕ}
      → (opened l k r p).0 ≡ ok c
      → IsStored p (opened l k r p).1 k c
  opened-IsStored k p none h =
      let s = pinged-IsStored k (open_next p) p.opened (l.ping p.pings p.opened) h in
      record { dbs = s.dbs; closed = s.closed; salt = s.salt }
  opened-IsStored k p (some e) h = cc

  reconnect-IsStored :
      (text k : Text) (p : Pool) {c : ℕ}
      → (reconnect l text k p).0 ≡ ok c
      → IsStored p (reconnect l text k p).1 k c
  unfolding reconnect
  reconnect-IsStored text k p h = opened-IsStored k p (l.sql_open text) h

  -- A call that found no connection in the pool, and one for the same credentials after it that also
  -- found none, both open one: the second closes the connection that the first returned, and puts
  -- its own into the pool.
  pub reconnect_closes_previous :
      (text dsn_hash : Text) (p : Pool) {c d : ℕ}
      → (reconnect l text dsn_hash p).0 ≡ ok c
      → let q = (reconnect l text dsn_hash p).1 in
        (reconnect l text dsn_hash q).0 ≡ ok d
        → (contains (reconnect l text dsn_hash q).1.closed c ≡ true)
          × (lookup (reconnect l text dsn_hash q).1.dbs dsn_hash ≡ some d)
  reconnect_closes_previous text k p {c} {d} h i =
      let q = (reconnect l text k p).1 in
      let s = reconnect-IsStored text k p h in
      let t = reconnect-IsStored text k q i in
      let held : lookup q.dbs k ≡ some c = rw s.dbs (lookup_assigned k c p.dbs) in
      (rw (t.closed, held) (contains_last q.closed c), rw t.dbs (lookup_assigned k d q.dbs))

  found_stored :
      (creds : Data) (p : Pool) (c : ℕ) (r : Option Err) {db : ℕ}
      → let k = hash_of l p.salt (dsn_of l creds) in
        lookup p.dbs k ≡ some c
        → (or_reconnect l creds p (answered r c) (pings_added p)).0 ≡ ok db
        → let q = (or_reconnect l creds p (answered r c) (pings_added p)).1 in
          (lookup q.dbs k ≡ some db) × (q.salt ≡ p.salt)
  found_stored creds p c none e h = (e ∙ ground arith, refl)
  found_stored creds p c (some x) e h =
      let k = hash_of l p.salt (dsn_of l creds) in
      let s = reconnect-IsStored (dsn_of l creds) k (pings_added p) h in
      (rw s.dbs (lookup_assigned k _ p.dbs), s.salt)

  answer_stored :
      (creds : Data) (p : Pool) (x : Option ℕ) {db : ℕ}
      → let k = hash_of l p.salt (dsn_of l creds) in
        lookup p.dbs k ≡ x
        → ((answer_of l x >>= or_reconnect l creds p) p).0 ≡ ok db
        → let q = ((answer_of l x >>= or_reconnect l creds p) p).1 in
          (lookup q.dbs k ≡ some db) × (q.salt ≡ p.salt)
  answer_stored creds p none e h =
      let k = hash_of l p.salt (dsn_of l creds) in
      let s = reconnect-IsStored (dsn_of l creds) k p h in
      (rw s.dbs (lookup_assigned k _ p.dbs), s.salt)
  answer_stored creds p (some c) e h = found_stored creds p c (l.ping p.pings c) e h

  pub connect_stored :
      (creds : Data) (p : Pool) {db : ℕ}
      → (connect l creds p).0 ≡ ok db
      → let q = (connect l creds p).1 in
        (lookup q.dbs (hash_of l p.salt (dsn_of l creds)) ≡ some db) × (q.salt ≡ p.salt)
  unfolding connect pooled
  connect_stored creds p h = answer_stored creds p _ refl h

  connect_pooled :
      (creds : Data) (q : Pool) {db : ℕ}
      → lookup q.dbs (hash_of l q.salt (dsn_of l creds)) ≡ some db
      → l.ping q.pings db ≡ none
      → connect l creds q ≡ (ok db, pings_added q)
  unfolding pooled connect
  connect_pooled creds q i a = rw (i, a) refl

  -- A Connect that succeeded has put its connection into the pool: where the next ping of it is
  -- answered, Connect with the same credentials returns the same one and opens none.
  connect-connect :
      (creds : Data) (p : Pool) {db : ℕ}
      → (connect l creds p).0 ≡ ok db
      → let q = (connect l creds p).1 in
        l.ping q.pings db ≡ none → connect l creds q ≡ (ok db, record q { pings = suc q.pings })
  connect-connect creds p {db} h a =
      let q = (connect l creds p).1 in
      let (i, s) = connect_stored creds p h in connect_pooled creds q (rw s i) a

leb_swap : (a b : ℕ) → leb (suc a) b ≡ not (leb b a)
leb_swap a b = ground arith
