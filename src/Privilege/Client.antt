-- ===== src/Privilege/Client.antt =====
-- PrivilegeClient: the statements that grant and revoke.
pub mod Laws
use crossplane_provider_hana.Prelude.{
  Bool, true, false, not, List, [], ◌∷◌, ◌++◌, if◌then◌else◌, map,
}
use crossplane_provider_hana.Text.{Text, lit, text_eq, join}
use crossplane_provider_hana.Exec.{pure, lift, ◌>>=◌, ◌>>◌}
use crossplane_provider_hana.Sql.{Sql, Database, exec, query}
use crossplane_provider_hana.GoMap.{MapOrder}
use crossplane_provider_hana.Privilege.{Role, quoted_name, option_suffix}
use crossplane_provider_hana.Privilege.Parse.{parse_roles}
use crossplane_provider_hana.Privilege.Groups.{PrivilegeGroup, group_privileges_by_type}

abbrev pub is_nil : {A : Type 0} → List A → Bool
is_nil [] = true
is_nil (x ∷ xs) = false

unfoldable pub grant_query : Text → PrivilegeGroup → Text
grant_query grantee g =
    lit "GRANT "
    ++ g.body
    ++ lit " TO "
    ++ grantee
    ++ (if g.is_grantable then option_suffix g.type else [])

unfoldable pub revoke_query : Text → PrivilegeGroup → Text
revoke_query grantee g = lit "REVOKE " ++ g.body ++ lit " FROM " ++ grantee

module _ (db : Database) where
  -- A loop of statements that stops at the first that fails.
  unfoldable pub exec_all : List Text → Sql (Unit {0})
  unfolding exec
  exec_all [] = pure tt
  exec_all (q ∷ qs) = exec db q >> exec_all qs

  unfoldable pub grant_privileges : MapOrder → Text → Text → List Text → Sql (Unit {0})
  unfolding exec_all grant_query group_privileges_by_type
  grant_privileges o grantor grantee privilege_strings =
      if is_nil privilege_strings then pure tt else do
        groups ← lift (group_privileges_by_type o privilege_strings grantor)
        exec_all (map (grant_query grantee) groups)

  unfoldable pub revoke_privileges : MapOrder → Text → Text → List Text → Sql (Unit {0})
  unfolding exec_all revoke_query group_privileges_by_type
  revoke_privileges o default_schema grantee privilege_strings = do
    groups ← lift (group_privileges_by_type o privilege_strings default_schema)
    exec_all (map (revoke_query grantee) groups)

-- The quoted names of the roles with, and without, the admin option, in the order of the list.
unfoldable pub role_names : Bool → List Role → List Text
unfolding quoted_name
role_names admin [] = []
role_names admin (r ∷ roles) =
    let rest = role_names admin roles in
    if (if r.is_grantable then admin else not admin) then quoted_name r ∷ rest else rest

module _ (db : Database) where
  abbrev exec_unless_nil : List Text → Text → Sql (Unit {0})
  exec_unless_nil [] query = pure tt
  exec_unless_nil (x ∷ xs) query = exec db query

  unfoldable pub grant_roles : Text → List Text → Sql (Unit {0})
  unfolding exec parse_roles role_names join
  grant_roles grantee names = if is_nil names then pure tt else do
    roles ← lift (parse_roles names)
    let normal_roles = role_names false roles
    let admin_roles = role_names true roles
    exec_unless_nil normal_roles
        (lit "GRANT " ++ join (lit ", ") normal_roles ++ lit " TO " ++ grantee)
    exec_unless_nil admin_roles (
        lit "GRANT "
        ++ join (lit ", ") admin_roles
        ++ lit " TO "
        ++ grantee
        ++ lit " WITH ADMIN OPTION")

  unfoldable pub revoke_roles : Text → List Text → Sql (Unit {0})
  unfolding exec parse_roles quoted_name join
  revoke_roles grantee names = if is_nil names then pure tt else do
    roles ← lift (parse_roles names)
    exec db (lit "REVOKE " ++ join (lit ", ") (map quoted_name roles) ++ lit " FROM " ++ grantee)
