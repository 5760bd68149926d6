-- ===== src/Clients/User.antt =====
-- internal/clients/hana/user/user_client.go: the statements that write. The reading half is in
-- the modules below.
pub mod Credentials
pub mod Read
use crossplane_provider_hana.Prelude.{
  Bool, true, false, ◌&&◌, ◌||◌, not, Option, none, some, List, [], ◌∷◌, ◌++◌, ◌==◌, if◌then◌else◌,
  map, contains,
}
use crossplane_provider_hana.Text.{Text, lit, text_eq, trim_suffix, is_empty, to_upper, join}
use crossplane_provider_hana.Errors.{Err, Result, ok, err, other, wrap}
use crossplane_provider_hana.Exec.{Exec, pure, fail, lift, ◌>>=◌, ◌>>◌, or_fail}
use crossplane_provider_hana.Sql.{Sql, Database, History, exec}
use crossplane_provider_hana.GoMap.{GoMap, MapOrder}
use crossplane_provider_hana.Utils.{escape_single_quotes}
use crossplane_provider_hana.Apis.{UserParameters, Password, Authentication}
use crossplane_provider_hana.Privilege.Client.{
  is_nil, exec_all, grant_privileges, revoke_privileges, grant_roles, revoke_roles,
}

abbrev pub valid_params : List Text
valid_params =
    lit "CLIENT"
    ∷ lit "LOCALE"
    ∷ lit "TIME ZONE"
    ∷ lit "EMAIL ADDRESS"
    ∷ lit "STATEMENT MEMORY LIMIT"
    ∷ lit "STATEMENT THREAD LIMIT"
    ∷ []

pub record ResolvedUserMapping : Type 0 where
  pub name : Text
  pub subject_name : Text

-- The `%s = '%s'` parts of setParameters.
unfoldable pub parameter_parts : List (Text × Text) → List Text
unfolding to_upper contains escape_single_quotes
parameter_parts [] = []
parameter_parts ((key, value) ∷ entries) =
    let rest = parameter_parts entries in
    if contains valid_params (to_upper key)
    then (to_upper key ++ lit " = '" ++ escape_single_quotes value ++ lit "'") ∷ rest
    else rest

unfoldable pub set_parameters : MapOrder → Text → GoMap Text Text → Text
unfolding parameter_parts join
set_parameters o query parameters =
    let new_params = parameter_parts (o.range (Text × Text) parameters) in
    if is_nil new_params
    then query
    else query ++ lit " SET PARAMETER " ++ join (lit ", ") new_params

-- Whether the specification names a secret for the password.
abbrev pub wants_password : Option Password → Bool
wants_password none = false
wants_password (some pw) = elim pw.password_secret_ref [ none ↦ false | some ref ↦ true ]

abbrev pub forces_change : Option Password → Bool
forces_change none = false
forces_change (some pw) = pw.force_first_password_change

abbrev finish_create : MapOrder → UserParameters → Text → Text
finish_create o parameters query =
    let query1 =
      if is_nil parameters.parameters
      then query
      else set_parameters o query parameters.parameters in
    if not (is_empty parameters.usergroup)
    then query1 ++ lit " SET USERGROUP " ++ parameters.usergroup
    else query1

unfoldable pub generate_create_query : MapOrder → UserParameters → Text → Result Text
unfolding set_parameters is_empty
generate_create_query o parameters password =
    let query =
      (if parameters.restricted_user then lit "CREATE RESTRICTED USER " else lit "CREATE USER ")
      ++ parameters.username in
    if wants_password parameters.authentication.password
    then (if is_empty password
        then err (other (lit "cannot get user password"))
        else ok (
            finish_create o parameters (
              query
              ++ lit " PASSWORD \""
              ++ password
              ++ lit "\""
              ++ (if forces_change parameters.authentication.password
                  then []
                  else lit " NO FORCE_FIRST_PASSWORD_CHANGE"))))
    else ok (finish_create o parameters query)

-- The loops of UpdateParameters, which print the valid keys only.
unfoldable pub add_settings : Text → List (Text × Text) → Text
unfolding to_upper contains
add_settings query [] = query
add_settings query ((key, value) ∷ entries) =
    add_settings
      (if contains valid_params (to_upper key)
        then query ++ lit " " ++ to_upper key ++ lit " = '" ++ value ++ lit "',"
        else query)
      entries

unfoldable pub add_clears : Text → List (Text × Text) → Text
unfolding to_upper contains
add_clears query [] = query
add_clears query ((key, value) ∷ entries) =
    add_clears
      (if contains valid_params (to_upper key)
        then query ++ lit " " ++ to_upper key ++ lit ","
        else query)
      entries

unfoldable pub update_parameters_query : MapOrder → Text → GoMap Text Text → GoMap Text Text → Text
unfolding add_settings add_clears trim_suffix
update_parameters_query o username parameters_to_set parameters_to_clear =
    let query = lit "ALTER USER " ++ username in
    let query1 =
      if is_nil parameters_to_set
      then query
      else trim_suffix (lit ",") (
          add_settings (query ++ lit " SET PARAMETER") (o.range (Text × Text) parameters_to_set)) in
    if is_nil parameters_to_clear
    then query1
    else trim_suffix (lit ",")
        (add_clears (query1 ++ lit " CLEAR PARAMETER") (o.range (Text × Text) parameters_to_clear))

unfoldable pub add_identity : Text → ResolvedUserMapping → Text
add_identity username provider =
    lit "ALTER USER "
    ++ username
    ++ lit " ADD IDENTITY '"
    ++ provider.subject_name
    ++ lit "' FOR X509 PROVIDER "
    ++ provider.name

unfoldable pub drop_identity : Text → ResolvedUserMapping → Text
drop_identity username provider =
    lit "ALTER USER "
    ++ username
    ++ lit " DROP IDENTITY '"
    ++ provider.subject_name
    ++ lit "' FOR X509 PROVIDER "
    ++ provider.name

module _ (db : Database) where
  unfoldable pub update_password : Text → Text → Bool → Sql (Unit {0})
  unfolding exec
  update_password username password force_first_password_change =
      or_fail (wrap (lit "cannot update user password: ")) (
        exec db (
          lit "ALTER USER "
          ++ username
          ++ lit " PASSWORD \""
          ++ password
          ++ lit "\""
          ++ (if force_first_password_change then [] else lit " NO FORCE_FIRST_PASSWORD_CHANGE")))

  unfoldable pub update_parameters :
      MapOrder → Text → GoMap Text Text → GoMap Text Text → Sql (Unit {0})
  unfolding exec update_parameters_query
  update_parameters o username parameters_to_set parameters_to_clear =
      or_fail (wrap (lit "cannot update user parameters: "))
        (exec db (update_parameters_query o username parameters_to_set parameters_to_clear))

  unfoldable pub update_usergroup : Text → Text → Sql (Unit {0})
  unfolding exec is_empty
  update_usergroup username usergroup = or_fail (wrap (lit "cannot update user usergroup: ")) (
      exec db (
        lit "ALTER USER "
        ++ username
        ++ (if not (is_empty usergroup)
            then lit " SET USERGROUP " ++ usergroup
            else lit " UNSET USERGROUP")))

  unfoldable pub update_password_lifetime_check : Text → Bool → Sql (Unit {0})
  unfolding exec
  update_password_lifetime_check username enabled =
      or_fail (wrap (lit "cannot update user password lifetime check: ")) (
        exec db (
          lit "ALTER USER "
          ++ username
          ++ (if enabled
              then lit " ENABLE PASSWORD LIFETIME"
              else lit " DISABLE PASSWORD LIFETIME")))

  unfoldable pub update_x509_providers :
      Text → List ResolvedUserMapping → List ResolvedUserMapping → Sql (Unit {0})
  unfolding exec_all add_identity drop_identity
  update_x509_providers username to_add to_remove = do
    exec_all db (map (add_identity username) to_add)
    exec_all db (map (drop_identity username) to_remove)

  unfoldable pub delete : UserParameters → Sql (Unit {0})
  unfolding exec
  delete parameters = exec db (lit "DROP USER " ++ parameters.username)

  unfoldable pub toggle_password_authentication : Text → Bool → Sql (Unit {0})
  unfolding exec
  toggle_password_authentication username is_password_enabled =
      or_fail (wrap (lit "failed to enable/disable password: ")) (
        exec db (
          lit "ALTER USER "
          ++ username
          ++ (if is_password_enabled then lit " DISABLE PASSWORD" else lit " ENABLE PASSWORD")))

  unfoldable pub update_roles : Text → List Text → List Text → Sql (Unit {0})
  unfolding grant_roles revoke_roles
  update_roles grantee to_grant to_revoke = do
    if is_nil to_grant then pure tt else grant_roles db grantee to_grant
    if is_nil to_revoke then pure tt else revoke_roles db grantee to_revoke

module _ (db : Database) (o : MapOrder) (username : Text) where
  unfoldable pub update_privileges : Text → List Text → List Text → Sql (Unit {0})
  unfolding grant_privileges revoke_privileges
  update_privileges grantee to_grant to_revoke = do
    if is_nil to_grant then pure tt else grant_privileges db o username grantee to_grant
    if is_nil to_revoke then pure tt else revoke_privileges db o username grantee to_revoke

  unfoldable pub create : UserParameters → Text → List ResolvedUserMapping → Sql (Unit {0})
  unfolding exec generate_create_query update_x509_providers grant_privileges grant_roles
      update_password_lifetime_check
  create parameters password providers = do
    query ← lift (generate_create_query o parameters password)
    exec db query
    update_x509_providers db parameters.username providers []
    or_fail (wrap (lit "failed to grant privileges: "))
        (grant_privileges db o username parameters.username parameters.privileges)
    or_fail (wrap (lit "failed to grant roles: "))
        (grant_roles db parameters.username parameters.roles)
    if parameters.is_password_lifetime_check_enabled
        then pure tt
        else update_password_lifetime_check db parameters.username
            parameters.is_password_lifetime_check_enabled
