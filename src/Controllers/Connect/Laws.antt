-- ===== src/Controllers/Connect/Laws.antt =====
-- Connect of a user's connector, from the reference of the resource to the pool.
use crossplane_provider_hana.Prelude.{
  Option, none, some, ◌≡◌, sym, ap, arith, ◌∙◌, inl, inr, Option-cases,
}
use crossplane_provider_hana.Text.{Text, lit, text_eq}
use crossplane_provider_hana.Errors.{Result, Result-cases, ok, wrapping}
use crossplane_provider_hana.Exec.{Exec, pure, bind_ok, ◌>>=◌, or_fail}
use crossplane_provider_hana.GoMap.{lookup}
use crossplane_provider_hana.Clients.Pool.{
  Libraries, Pool, connect, Data, value_of, dsn_of, hash_of,
}
use crossplane_provider_hana.Clients.Pool.Storage.{connect_stored}
use crossplane_provider_hana.Controllers.Connect.{
  Cluster, External, ProviderConfig, SecretReference, get_credentials, connect_user,
}

-- What Kubernetes is asked leaves the pool as it is.
credentials_keep_pool :
    (kube : Cluster) (reference : Option Text) (m : Text) (p : Pool)
    → (get_credentials kube reference m p).1 ≡ p
unfolding get_credentials
credentials_keep_pool kube reference m p = ground arith

-- What was read on the way to a secret: the resource names a ProviderConfig, and the ProviderConfig a
-- secret, which stands under that name in that namespace. The use of the ProviderConfig was recorded.
pub record IsRead (kube : Cluster) (reference : Option Text) (secret_data : Data) : Type 0 where
  config_name : Text
  config : ProviderConfig
  secret_ref : SecretReference
  recorded : kube.track ≡ none
  referenced : reference ≡ some config_name
  config_read : kube.get_provider_config config_name ≡ ok config
  secret_named : config.connection_secret_ref ≡ some secret_ref
  secret_read : kube.get_secret secret_ref.namespace secret_ref.name ≡ ok secret_data

module _ (kube : Cluster) (reference : Option Text) (m : Text) (p : Pool) where
  credentials_of_secret :
      (name : Text) (pc : ProviderConfig) (ref : SecretReference) {secret_data : Data}
      → kube.track ≡ none
      → reference ≡ some name
      → kube.get_provider_config name ≡ ok pc
      → pc.connection_secret_ref ≡ some ref
      → (get_credentials kube reference m p).0 ≡ ok secret_data
      → IsRead kube reference secret_data
  unfolding get_credentials
  credentials_of_secret name pc ref t n c r h = record {
    config_name = name;
    config = pc;
    secret_ref = ref;
    recorded = t;
    referenced = n;
    config_read = c;
    secret_named = r;
    secret_read = ground arith;
  }

  credentials-IsRead :
      {secret_data : Data}
      → (get_credentials kube reference m p).0 ≡ ok secret_data
      → IsRead kube reference secret_data
  unfolding get_credentials
  credentials-IsRead h = elim (Option-cases kube.track) [
    | inr (e, t) ↦ absurd (ground (arith, t))
    | inl t ↦ elim (Option-cases reference) [
      | inl n ↦ absurd (ground (arith, t, n))
      | inr (name, n) ↦ elim (Result-cases (kube.get_provider_config name)) [
        | inr (e, c) ↦ absurd (ground (arith, t, n, c))
        | inl (pc, c) ↦ elim (Option-cases pc.connection_secret_ref) [
          | inl r ↦ absurd (ground (arith, t, n, c, r))
          | inr (ref, r) ↦ credentials_of_secret name pc ref t n c r h
        ]
      ]
    ]
  ]

-- How a connector ends: the secret was read, the connection under its credentials in the pool is
-- the one returned, and the name is the one in the secret.
pub record IsConnected (l : Libraries) (kube : Cluster) (reference : Option Text) (p q : Pool)
    (x : External) : Type 0 where
  secret_data : Data
  found : IsRead kube reference secret_data
  pooled : lookup q.dbs (hash_of l p.salt (dsn_of l secret_data)) ≡ some x.connection
  named : x.username ≡ value_of (lookup secret_data l.user_key)

connected_lem :
    (l : Libraries) (creds : Data) (p : Pool) {x : External}
    → let m : Exec Pool External = (do
      c ← or_fail (wrapping (lit "cannot connect to HANA DB: ")) (connect l creds)
      pure (record { connection = c; username = value_of (lookup creds l.user_key) })) in
      (m p).0 ≡ ok x
      → ((connect l creds p).0 ≡ ok x.connection)
        × (x.username ≡ value_of (lookup creds l.user_key))
        × ((m p).1 ≡ (connect l creds p).1)
connected_lem l creds p h = ground arith

-- A Connect of the user controller that succeeds has read the ProviderConfig that the resource
-- names, and the secret that this one names, in its namespace; it returns the connection that the pool
-- then holds for the credentials in the secret, with the name of their user.
pub connect_user-IsConnected :
    (l : Libraries) (kube : Cluster) (reference : Option Text) (p : Pool) {x : External}
    → (connect_user l kube reference p).0 ≡ ok x
    → IsConnected l kube reference p (connect_user l kube reference p).1 x
unfolding connect_user
connect_user-IsConnected l kube reference p {x} h =
    let creds = get_credentials kube reference (lit "cannot get credentials Secret: ") in
    let rest : Data → Exec Pool External = λ secret_data. (do
      c ← or_fail (wrapping (lit "cannot connect to HANA DB: ")) (connect l secret_data)
      pure (record { connection = c; username = value_of (lookup secret_data l.user_key) })) in
    let (secret_data, e, s) = bind_ok creds rest p h in
    let step : connect_user l kube reference p ≡ rest secret_data p =
      s ∙ ap (rest secret_data) (credentials_keep_pool kube reference _ p) in
    let (c, n, q) =
      connected_lem l secret_data p (ap (λ (r : Result External × Pool). r.0) (sym step) ∙ h) in
    record {
      secret_data = secret_data;
      found = credentials-IsRead kube reference _ p e;
      pooled = rw (step, q) (connect_stored l secret_data p c).0;
      named = n;
    }
