-- ===== src/Tests/Connections.antt =====
-- The theorems on the pool, applied to a driver that answers every ping but the third.
use crossplane_provider_hana.Prelude.{
  ℕ_eq, ℕ, ◌≡◌, refl, true, some, none, [], ◌∷◌, ◌++◌, contains, leb, suc, nat_eq, if◌then◌else◌,
}
use crossplane_provider_hana.Text.{lit, text_eq}
use crossplane_provider_hana.Errors.{ok, other}
use crossplane_provider_hana.GoMap.{lookup}
use crossplane_provider_hana.Clients.Pool.{
  new_pool, Libraries, Pool, Data, connect, disconnect, reconnect,
}
use crossplane_provider_hana.Clients.Pool.Laws.{new_pool-IsPool, IsPool, operations_keep_pool}
use crossplane_provider_hana.Clients.Pool.Storage.{reconnect_closes_previous}
use crossplane_provider_hana.Controllers.Connect.{Cluster, connect_user}
use crossplane_provider_hana.Controllers.Connect.Laws.{IsConnected, connect_user-IsConnected}
use crossplane_provider_hana.Tests.Data.{in_order}

abbrev libraries : Libraries
libraries = record {
  endpoint_key = lit "endpoint";
  port_key = lit "port";
  user_key = lit "username";
  password_key = lit "password";
  user_password = λ user password. user ++ lit ":" ++ password;
  url_string =
      λ url. url.scheme ++ lit "://" ++ url.user ++ lit "@" ++ url.host ++ lit "?" ++ url.raw_query;
  id_key = λ text salt time memory threads len. text;
  encode_to_string = λ text. text;
  sql_open = λ text. none;
  ping = λ pings db. if nat_eq pings 2 then some (other (lit "refused")) else none;
}

abbrev credentials : Data
credentials =
    (lit "endpoint", lit "db")
    ∷ (lit "port", lit "443")
    ∷ (lit "username", lit "U")
    ∷ (lit "password", lit "P")
    ∷ []

abbrev empty_pool : Pool
empty_pool = new_pool []

operations_keep_pool_example :
    let q = (disconnect in_order empty_pool).1 in
    IsPool (connect libraries credentials empty_pool).1
    × (q.dbs ≡ [])
    × IsPool q
    × ((c : ℕ) → contains q.closed c ≡ leb (suc c) q.opened)
operations_keep_pool_example =
    operations_keep_pool libraries credentials in_order empty_pool (new_pool-IsPool [])

reconnect_closes_previous_example :
    let q = (reconnect libraries (lit "dsn") (lit "hash") empty_pool).1 in
    let r = (reconnect libraries (lit "dsn") (lit "hash") q).1 in
    (contains r.closed 0 ≡ true) × (lookup r.dbs (lit "hash") ≡ some 1)
unfolding connect reconnect new_pool
reconnect_closes_previous_example =
    reconnect_closes_previous libraries (lit "dsn") (lit "hash") empty_pool refl refl

abbrev kubernetes : Cluster
kubernetes = record {
  track = none;
  get_provider_config = λ name.
      ok (record {
        connection_secret_ref = some (record { namespace = lit "default"; name = name });
      });
  get_secret = λ namespace name. ok credentials;
}

connect_user-IsConnected_example :
    IsConnected libraries kubernetes
      (some (lit "hana"))
      empty_pool
      (connect_user libraries kubernetes (some (lit "hana")) empty_pool).1
      (record { connection = 0; username = lit "U" })
unfolding connect_user connect new_pool crossplane_provider_hana.Prelude.list_eq
connect_user-IsConnected_example =
    connect_user-IsConnected libraries kubernetes (some (lit "hana")) empty_pool refl
