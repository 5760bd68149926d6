-- ===== src/Clients/Pool.antt =====
-- internal/clients/hana/hana.go: the pool of connections, one for each set of credentials. The
-- driver, the key derivation and the writing of URLs are libraries, and so parameters.
pub mod Laws
pub mod Storage
use crossplane_provider_hana.Prelude.{
  ℕ, suc, ◌+◌, ◌*◌, Option, none, some, List, [], ◌∷◌, ◌++◌, Bool, true, false,
}
use crossplane_provider_hana.Text.{Text, lit, text_eq}
use crossplane_provider_hana.Errors.{Err, Result, ok, err, wrap}
use crossplane_provider_hana.Exec.{Exec, pure, ◌>>=◌}
use crossplane_provider_hana.GoMap.{GoMap, MapOrder, lookup, assign}

-- net/url.URL, with the fields that DSN sets
pub record Url : Type 0 where
  pub scheme : Text
  pub user : Text
  pub host : Text
  pub raw_query : Text

pub record Libraries : Type 0 where
  -- the keys of a credentials secret in the Crossplane runtime
  pub endpoint_key : Text
  pub port_key : Text
  pub user_key : Text
  pub password_key : Text
  -- url.UserPassword and URL.String
  pub user_password : Text → Text → Text
  pub url_string : Url → Text
  -- argon2.IDKey: password, salt, time, memory, threads, length; base64.RawStdEncoding
  pub id_key : Text → Text → ℕ → ℕ → ℕ → ℕ → Text
  pub encode_to_string : Text → Text
  -- sql.Open of a DSN, and PingContext of a connection after a number of pings
  pub sql_open : Text → Option Err
  pub ping : ℕ → ℕ → Option Err

-- hanaDB. A connection is known by the number of those opened before it; `closed` lists those for
-- which Close was called.
pub record Pool : Type 0 where
  pub dbs : GoMap Text ℕ
  pub salt : Text
  pub opened : ℕ
  pub closed : List ℕ
  pub pings : ℕ

-- The type of Secret.Data.
abbrev pub Data : Type 0
Data = GoMap Text Text

-- string(data[key]), which is empty for a missing key
unfoldable pub value_of : Option Text → Text
value_of none = []
value_of (some v) = v

unfoldable pub new_pool : Text → Pool
new_pool salt = record { dbs = []; salt = salt; opened = 0; closed = []; pings = 0 }

-- What Swap hands back is closed.
abbrev pub close_loaded : List ℕ → Option ℕ → List ℕ
close_loaded closed none = closed
close_loaded closed (some prev) = closed ++ prev ∷ []

abbrev pub answered : Option Err → ℕ → Option ℕ
answered none db = some db
answered (some e) db = none

-- h.dbs.Swap(dsnHash, db)
unfoldable pub swap : Text → ℕ → Pool → Pool
unfolding lookup assign
swap dsn_hash db p = record p {
  dbs = assign dsn_hash db p.dbs;
  closed = close_loaded p.closed (lookup p.dbs dsn_hash);
}

-- The values that Range visits.
unfoldable pub values : GoMap Text ℕ → List ℕ
values [] = []
values ((k, db) ∷ m) = db ∷ values m

module _ (l : Libraries) where
  unfoldable pub dsn : Text → Text → Text → Text → Text
  dsn username password endpoint port = l.url_string (record {
    scheme = lit "hdb";
    user = l.user_password username password;
    host = endpoint ++ lit ":" ++ port;
    raw_query = lit "TLSServerName=" ++ endpoint;
  })

  unfoldable pub dsn_of : Data → Text
  unfolding dsn value_of lookup
  dsn_of creds =
      dsn (value_of (lookup creds l.user_key)) (value_of (lookup creds l.password_key))
        (value_of (lookup creds l.endpoint_key)) (value_of (lookup creds l.port_key))

  unfoldable pub hash_of : Text → Text → Text
  hash_of salt text = l.encode_to_string (l.id_key text salt 1 (64 * 1024) 4 32)

  abbrev pub answer_of : Option ℕ → Exec Pool (Option ℕ)
  answer_of none p = (ok none, p)
  answer_of (some db) p = (ok (answered (l.ping p.pings db) db), record p { pings = suc p.pings })

  -- The first part of Connect: a connection that is in the pool and answers.
  unfoldable pub pooled : Text → Exec Pool (Option ℕ)
  unfolding lookup
  pooled dsn_hash p = answer_of (lookup p.dbs dsn_hash) p

  abbrev pub pinged : Text → ℕ → Option Err → Exec Pool ℕ
  pinged dsn_hash db none p = (ok db, swap dsn_hash db p)
  pinged dsn_hash db (some e) p =
      (err (wrap (lit "failed to ping HANA DB: ") e), record p { closed = p.closed ++ db ∷ [] })

  abbrev pub opened : Text → Option Err → Exec Pool ℕ
  opened dsn_hash none p =
      pinged dsn_hash p.opened (l.ping p.pings p.opened)
        (record p { opened = suc p.opened; pings = suc p.pings })
  opened dsn_hash (some e) p = (err (wrap (lit "failed to open HANA DB connection: ") e), p)

  -- The second part: another connection, which takes the place of the one in the pool.
  unfoldable pub reconnect : Text → Text → Exec Pool ℕ
  unfolding swap
  reconnect text dsn_hash = opened dsn_hash (l.sql_open text)

  abbrev pub or_reconnect : Data → Pool → Option ℕ → Exec Pool ℕ
  or_reconnect creds p (some db) = pure db
  or_reconnect creds p none = reconnect (dsn_of creds) (hash_of p.salt (dsn_of creds))

  unfoldable pub connect : Data → Exec Pool ℕ
  unfolding dsn_of hash_of pooled reconnect
  connect creds p = (pooled (hash_of p.salt (dsn_of creds)) >>= or_reconnect creds p) p

-- Disconnect waits for every Close, in whatever order they end.
unfoldable pub disconnect : MapOrder → Exec Pool (Unit {0})
unfolding values
disconnect o p =
    (ok tt, record p { dbs = []; closed = p.closed ++ values (o.range (Text × ℕ) p.dbs) })
