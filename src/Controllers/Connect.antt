-- ===== src/Controllers/Connect.antt =====
-- internal/controller/*/reconciler.go: Connect of the connectors, from the managed resource to a
-- connection of the pool. What Kubernetes answers is a parameter.
pub mod Laws
use crossplane_provider_hana.Prelude.{ℕ, Option, none, some}
use crossplane_provider_hana.Text.{Text, lit, text_eq}
use crossplane_provider_hana.Errors.{Err, Result, ok, err, other, wrapping, deref}
use crossplane_provider_hana.Exec.{Exec, pure, lift, ◌>>=◌, ◌>>◌, or_fail}
use crossplane_provider_hana.GoMap.{lookup}
use crossplane_provider_hana.Clients.Pool.{Libraries, Pool, connect, Data, value_of}

pub record SecretReference : Type 0 where
  pub namespace : Text
  pub name : Text

-- ProviderConfig, with the one reference of its specification that Connect reads.
pub record ProviderConfig : Type 0 where
  pub connection_secret_ref : Option SecretReference

-- usage.Track for the resource, and kube.Get of a ProviderConfig and of a Secret
pub record Cluster : Type 0 where
  pub track : Option Err
  pub get_provider_config : Text → Result ProviderConfig
  pub get_secret : Text → Text → Result Data

-- external, with what newClient is given
pub record External : Type 0 where
  pub connection : ℕ
  pub username : Text

abbrev tracked : Option Err → Result (Unit {0})
tracked none = ok tt
tracked (some e) = err e

abbrev required : Option SecretReference → Result SecretReference
required none = err (other (lit "ProviderConfig does not reference a credentials Secret"))
required (some ref) = ok ref

-- The steps before the pool: the secret's data. The third text is the message for a secret that is
-- not found.
unfoldable pub get_credentials : Cluster → Option Text → Text → Exec Pool Data
unfolding wrapping
get_credentials kube reference not_found = do
  or_fail (wrapping (lit "cannot track ProviderConfig usage: ")) (lift (tracked kube.track))
  name ← lift (deref reference)
  pc ← or_fail (wrapping (lit "cannot get ProviderConfig: ")) (lift (kube.get_provider_config name))
  ref ← lift (required pc.connection_secret_ref)
  or_fail (wrapping not_found) (lift (kube.get_secret ref.namespace ref.name))

module _ (l : Libraries) (kube : Cluster) where
  abbrev connect_to : Text → Text → Option Text → Exec Pool ℕ
  connect_to not_found no_database reference = do
    secret_data ← get_credentials kube reference not_found
    or_fail (wrapping no_database) (connect l secret_data)

  -- The clients of roles and of users are told the name of the user that connects.
  abbrev connect_with_username : Option Text → Exec Pool External
  connect_with_username reference = do
    secret_data ← get_credentials kube reference (lit "cannot get credentials Secret: ")
    connection ← or_fail (wrapping (lit "cannot connect to HANA DB: ")) (connect l secret_data)
    pure (record { connection = connection; username = value_of (lookup secret_data l.user_key) })

  unfoldable pub connect_role : Option Text → Exec Pool External
  unfolding get_credentials
  connect_role = connect_with_username

  unfoldable pub connect_user : Option Text → Exec Pool External
  unfolding get_credentials
  connect_user = connect_with_username

  unfoldable pub connect_usergroup : Option Text → Exec Pool ℕ
  unfolding get_credentials
  connect_usergroup =
      connect_to (lit "cannot get credentials Secret: ") (lit "cannot connect to HANA DB: ")

  unfoldable pub connect_rolegroup : Option Text → Exec Pool ℕ
  unfolding get_credentials
  connect_rolegroup =
      connect_to (lit "cannot get credentials Secret: ") (lit "cannot connect to HANA DB: ")

  unfoldable pub connect_dbschema : Option Text → Exec Pool ℕ
  unfolding get_credentials
  connect_dbschema =
      connect_to (lit "cannot get credentials Secret: ") (lit "cannot connect to HANA DB: ")

  unfoldable pub connect_auditpolicy : Option Text → Exec Pool ℕ
  unfolding get_credentials
  connect_auditpolicy =
      connect_to (lit "cannot get credentials Secret: ") (lit "cannot connect to HANA db: ")

  unfoldable pub connect_certificate : Option Text → Exec Pool ℕ
  unfolding get_credentials
  connect_certificate =
      connect_to (lit "cannot get credentials Secret: ") (lit "cannot connect to HANA db: ")

  unfoldable pub connect_pse : Option Text → Exec Pool ℕ
  unfolding get_credentials
  connect_pse =
      connect_to (lit "cannot get credentials Secret: ") (lit "cannot connect to HANA db: ")

  -- errors.Wrap takes its message as it is: the verb %w stays in it.
  unfoldable pub connect_x509provider : Option Text → Exec Pool ℕ
  unfolding get_credentials
  connect_x509provider =
      connect_to (lit "cannot get credentials Secret: %w: ") (lit "cannot connect to HANA db: ")
