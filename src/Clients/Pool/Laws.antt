-- ===== src/Clients/Pool/Laws.antt =====
-- What the pool holds.
use mathlib.Core.List.{Permᴰ}
use crossplane_provider_hana.Prelude.{
  ℕ, suc, Option, none, some, List, [], ◌∷◌, ◌++◌, Bool, true, false, ◌&&◌, ◌||◌, not, ◌==◌, ◌≡◌,
  refl, ap, arith, ◌∙◌, leb, ℕ_eq, contains, contains-append, Bool-cases, inl, inr, nat_eq_iff,
}
use crossplane_provider_hana.Text.{Text, text_eq}
use crossplane_provider_hana.Errors.{Err}
use crossplane_provider_hana.Exec.{◌>>=◌}
use crossplane_provider_hana.GoMap.{GoMap, MapOrder, lookup, assign, IsMap, nodup}
use crossplane_provider_hana.GoMap.Laws.{assign-IsMap}
use crossplane_provider_hana.Clients.Pool.{
  new_pool, Libraries, Pool, Data, swap, values, pooled, reconnect, connect, disconnect, dsn_of,
  hash_of, close_loaded, pinged, opened, answered, answer_of, or_reconnect,
}

-- A connection that was opened and not closed.
abbrev is_open : Pool → ℕ → Bool
is_open p c = leb (suc c) p.opened && not (contains p.closed c)

-- The pool holds just the connections that were opened and not closed, each under one key.
pub record IsPool (p : Pool) : Type 0 where
  pub keys_once : IsMap p.dbs
  pub values_once : nodup (values p.dbs) ≡ true
  pub held : (c : ℕ) → contains (values p.dbs) c ≡ is_open p c
  pub closed_opened : (c : ℕ) → (contains p.closed c && leb p.opened c) ≡ false

abbrev is_prev : Option ℕ → ℕ → Bool
is_prev none c = false
is_prev (some prev) c = prev == c

contains-lookup :
    (m : GoMap Text ℕ) (k : Text) (c : ℕ)
    → is_prev (lookup m k) c ≡ true
    → contains (values m) c ≡ true
unfolding lookup values contains
contains-lookup [] k c h = cc
contains-lookup ((j, v) ∷ m) k c h = ground (arith, contains-lookup m k c)

-- Assigning puts a connection in the place of the one under the key.
contains-values-assign :
    (k : Text) (db : ℕ) (m : GoMap Text ℕ) (c : ℕ)
    → nodup (values m) ≡ true
    → contains (values (assign k db m)) c
      ≡ (db == c || (contains (values m) c && not (is_prev (lookup m k) c)))
unfolding assign values lookup contains nodup
contains-values-assign k db [] c h = ground arith
contains-values-assign k db ((j, v) ∷ m) c h = elim (Bool-cases (v == c)) [
  | inl e ↦
      let same = ap (contains (values m)) ((nat_eq_iff v c).0 e) in
      ground (arith, contains-values-assign k db m c, contains-lookup m k c, same)
  | inr e ↦ ground (arith, contains-values-assign k db m c)
]

nodup-values-assign :
    (k : Text) (db : ℕ) (m : GoMap Text ℕ)
    → nodup (values m) ≡ true
    → contains (values m) db ≡ false
    → nodup (values (assign k db m)) ≡ true
unfolding assign values lookup contains nodup
nodup-values-assign k db [] h n = refl
nodup-values-assign k db ((j, v) ∷ m) h n =
    ground (arith, nodup-values-assign k db m, contains-values-assign k db m v)

pub new_pool-IsPool : (salt : Text) → IsPool (new_pool salt)
unfolding new_pool nodup values contains
new_pool-IsPool salt = record {
  keys_once = refl;
  values_once = refl;
  held = λ c. ground arith;
  closed_opened = λ c. refl;
}

-- The next connection is held by no key.
fresh : (p : Pool) → IsPool p → contains (values p.dbs) p.opened ≡ false
fresh p w = ground (arith, w.held p.opened)

abbrev pub pings_added : Pool → Pool
pings_added p = record p { pings = suc p.pings }

pinged-IsPool : (p : Pool) → IsPool p → IsPool (pings_added p)
pinged-IsPool p w = record {
  keys_once = w.keys_once;
  values_once = w.values_once;
  held = w.held;
  closed_opened = w.closed_opened;
}

pub contains-close :
    (closed : List ℕ) (x : Option ℕ) (c : ℕ)
    → contains (close_loaded closed x) c ≡ (contains closed c || is_prev x c)
unfolding contains
contains-close closed none c = ground arith
contains-close closed (some prev) c = ground (arith, contains-append closed (prev ∷ []) c)

abbrev pub open_next : Pool → Pool
open_next p = record p { opened = suc p.opened; pings = suc p.pings }

module _ (p : Pool) (w : IsPool p) where
  swap-IsPool : (dsn_hash : Text) → IsPool (swap dsn_hash p.opened (open_next p))
  unfolding swap
  swap-IsPool k = record {
    keys_once = assign-IsMap k p.opened p.dbs w.keys_once;
    values_once = nodup-values-assign k p.opened p.dbs w.values_once (fresh p w);
    held = λ c. ground (
      arith,
      contains-values-assign k p.opened p.dbs c w.values_once,
      contains-close p.closed (lookup p.dbs k) c,
      contains-lookup p.dbs k c,
      w.held c,
      w.closed_opened c,
    );
    closed_opened = λ c. ground (
      arith,
      contains-close p.closed (lookup p.dbs k) c,
      contains-lookup p.dbs k c,
      w.held c,
      w.closed_opened c,
    );
  }

  refused-IsPool : IsPool (record (open_next p) { closed = p.closed ++ p.opened ∷ [] })
  unfolding contains
  refused-IsPool = record {
    keys_once = w.keys_once;
    values_once = w.values_once;
    held = λ c.
        ground (arith, contains-append p.closed (p.opened ∷ []) c, w.held c, w.closed_opened c);
    closed_opened =
        λ c. ground (arith, contains-append p.closed (p.opened ∷ []) c, w.closed_opened c);
  }

module _ (l : Libraries) where
  pinged_lem :
      (k : Text) (p : Pool) (r : Option Err)
      → IsPool p
      → IsPool (pinged l k p.opened r (open_next p)).1
  pinged_lem k p none w = swap-IsPool p w k
  pinged_lem k p (some e) w = refused-IsPool p w

  opened_lem : (k : Text) (p : Pool) (r : Option Err) → IsPool p → IsPool (opened l k r p).1
  opened_lem k p none w = pinged_lem k p (l.ping p.pings p.opened) w
  opened_lem k p (some e) w = w

  or_reconnect_lem :
      (creds : Data) (p q : Pool) (found : Option ℕ)
      → IsPool q
      → IsPool (or_reconnect l creds p found q).1
  unfolding reconnect
  or_reconnect_lem creds p q (some db) w = w
  or_reconnect_lem creds p q none w = opened_lem _ q (l.sql_open (dsn_of l creds)) w

  answer_lem :
      (creds : Data) (p : Pool) (x : Option ℕ)
      → IsPool p
      → IsPool ((answer_of l x >>= or_reconnect l creds p) p).1
  answer_lem creds p none w = or_reconnect_lem creds p p none w
  answer_lem creds p (some db) w =
      or_reconnect_lem creds p (pings_added p) (answered (l.ping p.pings db) db) (pinged-IsPool p w)

  connect-IsPool : (creds : Data) (p : Pool) → IsPool p → IsPool (connect l creds p).1
  unfolding connect pooled
  connect-IsPool creds p w = answer_lem creds p (lookup p.dbs (hash_of l p.salt (dsn_of l creds))) w

values-perm :
    {xs ys : GoMap Text ℕ} → Permᴰ xs ys → (c : ℕ) → contains (values xs) c ≡ contains (values ys) c
unfolding contains values
values-perm Permᴰ.nil c = refl
values-perm (Permᴰ.cons p d) c = ground (arith, ap (λ (x : Text × ℕ). x.1 == c) p, values-perm d c)
values-perm (Permᴰ.swap p q) c =
    ground (arith, ap (λ (x : Text × ℕ). x.1 == c) p, ap (λ (x : Text × ℕ). x.1 == c) q)
values-perm (Permᴰ.trans d f) c = values-perm d c ∙ values-perm f c

visited :
    (o : MapOrder) (m : GoMap Text ℕ) (c : ℕ)
    → contains (values (o.range (Text × ℕ) m)) c ≡ contains (values m) c
visited o m c = values-perm (o.range_perm (Text × ℕ) m) c

disconnect-IsPool :
    (o : MapOrder) (p : Pool)
    → IsPool p
    → let q = (disconnect o p).1 in
      (q.dbs ≡ []) × IsPool q × ((c : ℕ) → contains q.closed c ≡ leb (suc c) q.opened)
unfolding disconnect values nodup contains
disconnect-IsPool o p w =
    let all : (c : ℕ) → contains (disconnect o p).1.closed c ≡ leb (suc c) p.opened = λ c. ground (
      arith,
      contains-append p.closed (values (o.range (Text × ℕ) p.dbs)) c,
      visited o p.dbs c,
      w.held c,
      w.closed_opened c,
    ) in
    (
      refl,
      record {
        keys_once = refl;
        values_once = refl;
        held = λ c. ground (arith, all c);
        closed_opened = λ c. ground (arith, all c);
      },
      all,
    )

-- Connect and Disconnect keep the invariant of the pool, whatever the driver answers: it holds just
-- the connections that were opened and not closed, each under one key, and only opened connections
-- were closed. Disconnect leaves a pool that holds nothing, and of which every connection that was
-- opened is closed.
pub operations_keep_pool :
    (l : Libraries) (creds : Data) (o : MapOrder) (p : Pool)
    → IsPool p
    → let q = (disconnect o p).1 in
      IsPool (connect l creds p).1
      × (q.dbs ≡ [])
      × IsPool q
      × ((c : ℕ) → contains q.closed c ≡ leb (suc c) q.opened)
operations_keep_pool l creds o p w =
    let (a, b, c) = disconnect-IsPool o p w in (connect-IsPool l creds p w, a, b, c)
