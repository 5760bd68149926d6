-- ===== src/Tests/Statements.antt =====
-- The theorems on privileges, roles and credentials, applied to short lists of them.
use crossplane_provider_hana.Prelude.{
  ◌++◌, ◌≡◌, refl, true, false, ◌&&◌, ◌||◌, not, some, none, List, [], ◌∷◌, contains, ◌==◌, map,
}
use crossplane_provider_hana.Text.{Text, lit, text_eq, join}
use crossplane_provider_hana.Errors.{ok}
use crossplane_provider_hana.Sql.{plain}
use crossplane_provider_hana.GoMap.{lookup, IsMap}
use crossplane_provider_hana.Apis.{UserParameters}
use crossplane_provider_hana.Privilege.{
  Privilege, Role, system, object, quoted, role_string, base_string, get_default_privilege,
  clean_identifier,
}
use crossplane_provider_hana.Privilege.Parse.{parse_role_string, format_role_strings}
use crossplane_provider_hana.Privilege.RoleForms.{
  parse_role_string-role_string, format_role_strings_idempotent, clean_identifier-quoted,
}
use crossplane_provider_hana.Privilege.Groups.{
  GroupKey, group_key, group_of, group_key_eq, collect_groups, PrivilegeGroup,
  group_privileges_by_type, names_of,
}
use crossplane_provider_hana.Privilege.Groups.Laws.{names_with, collect_groups_lem}
use crossplane_provider_hana.Privilege.Groups.Bodies.{
  same_type, group_of_body, group_of_dotted_schema,
}
use crossplane_provider_hana.Privilege.Client.{exec_all, grant_query, grant_privileges}
use crossplane_provider_hana.Privilege.Client.Laws.{Ran, exec_all-Ran, grant_privileges_complete}
use crossplane_provider_hana.Privilege.Queries.{filter_managed_privileges}
use crossplane_provider_hana.Privilege.Queries.Laws.{filter_managed_privileges_lem}
use crossplane_provider_hana.Clients.User.Credentials.{query_password_authentication}
use crossplane_provider_hana.Clients.User.Credentials.Laws.{
  validate_statement, password_up_to_date_sound,
}
use crossplane_provider_hana.Utils.Trimming.{trim_outer_double_quotes}
use crossplane_provider_hana.Utils.Trimming.Laws.{trim_outer_double_quotes_lem}
use crossplane_provider_hana.Tests.Data.{in_order, answering, refusing, user_parameters}

abbrev admin_role : Role
admin_role = record { name = lit "A\"B"; is_grantable = true }

parse_role_string-role_string_example :
    parse_role_string (role_string admin_role)
    ≡ ok (record { name = quoted (lit "A\"B"); is_grantable = true })
parse_role_string-role_string_example = parse_role_string-role_string admin_role

format_role_strings_idempotent_example :
    format_role_strings (lit "\"PUBLIC\"" ∷ []) ≡ ok (lit "\"PUBLIC\"" ∷ [])
unfolding format_role_strings
format_role_strings_idempotent_example =
    format_role_strings_idempotent (lit "PUBLIC" ∷ []) {texts = lit "\"PUBLIC\"" ∷ []} refl

clean_identifier-quoted_example : clean_identifier (quoted (lit "a\"b")) ≡ lit "a\"b"
clean_identifier-quoted_example = clean_identifier-quoted (lit "a\"b")

abbrev on_table : Text → Privilege
on_table name = same_type object name (lit "S") (lit "T") false

abbrev three : List Privilege
three =
    on_table (lit "SELECT")
    ∷ same_type system (lit "CATALOG READ") [] [] false
    ∷ on_table (lit "INSERT")
    ∷ []

collect_groups_example :
    ((k : GroupKey) → names_of (lookup (collect_groups three []) k) ≡ names_with k three)
    × IsMap (collect_groups three [])
collect_groups_example = collect_groups_lem three

group_of_body_example :
    (group_of (group_key (on_table (lit "SELECT")), lit "SELECT" ∷ lit "INSERT" ∷ [])).body
    ≡ base_string (
        same_type object
          (join (lit ", ") (lit "SELECT" ∷ lit "INSERT" ∷ []))
          (lit "S")
          (lit "T")
          false)
unfolding contains
group_of_body_example =
    group_of_body (on_table (lit "SELECT")) (lit "SELECT" ∷ lit "INSERT" ∷ []) refl

group_of_dotted_schema_example :
    (group_of (
      group_key (same_type object (lit "SELECT") (lit "a.b") (lit "T") false),
      lit "SELECT" ∷ [],
    )).body
    ≡ base_string
        (same_type object (join (lit ", ") (lit "SELECT" ∷ [])) (lit "a") (lit "b.T") false)
unfolding contains
group_of_dotted_schema_example =
    group_of_dotted_schema (lit "a") (lit "b") (lit "SELECT") [] 84 false (lit "SELECT" ∷ []) refl

exec_all-Ran_example :
    let db = refusing (lit "GRANT B TO U") in
    let qs = lit "GRANT A TO U" ∷ lit "GRANT B TO U" ∷ lit "GRANT C TO U" ∷ [] in
    Ran db qs [] (exec_all db qs []).0 (exec_all db qs []).1
exec_all-Ran_example =
    exec_all-Ran (refusing (lit "GRANT B TO U"))
      (lit "GRANT A TO U" ∷ lit "GRANT B TO U" ∷ lit "GRANT C TO U" ∷ []) []

grant_privileges_complete_example :
    (groups : List PrivilegeGroup) × (group_privileges_by_type in_order
        (lit "CATALOG READ" ∷ [])
        (lit "U")
      ≡ ok groups)
    × ((grant_privileges (answering []) in_order (lit "U") (lit "V") (lit "CATALOG READ" ∷ []) []).1
        ≡ map plain (map (grant_query (lit "V")) groups))
unfolding grant_privileges
grant_privileges_complete_example =
    grant_privileges_complete (answering []) in_order (lit "U") (lit "V") (lit "CATALOG READ") [] []
      refl

abbrev with_password : UserParameters
with_password = record user_parameters {
  authentication = record {
    password = some (record {
      password_secret_ref =
          some (record { name = lit "s"; namespace = lit "n"; key = lit "password" });
      force_first_password_change = false;
    });
    x509_providers = none;
  };
}

password_up_to_date_sound_example :
    (answering []).on_exec [] (plain (validate_statement (lit "ALICE") (lit "Secret1"))) ≡ none
unfolding query_password_authentication
password_up_to_date_sound_example =
    password_up_to_date_sound (answering []) with_password true (lit "Secret1") [] refl

filter_managed_privileges_example :
    let seen = lit "CATALOG READ" ∷ lit "TRACE ADMIN" ∷ [] in
    let spec = lit "CATALOG READ" ∷ [] in
    (filter_managed_privileges seen spec [] (lit "strict") (lit "U") ≡ ok seen)
    × ((kept : List Text) × (filter_managed_privileges seen spec [] (lit "lax") (lit "U") ≡ ok kept)
        × ((q : Text)
            → contains kept q ≡ (
                contains seen q
                && (not (q == get_default_privilege (lit "U"))
                    && (contains spec q || contains [] q)))))
filter_managed_privileges_example =
    filter_managed_privileges_lem (lit "CATALOG READ" ∷ lit "TRACE ADMIN" ∷ [])
      (lit "CATALOG READ" ∷ []) [] (lit "U")

trim_outer_double_quotes_example :
    trim_outer_double_quotes (34 ∷ lit "INSERT ON \"S\"" ++ 34 ∷ []) ≡ lit "INSERT ON \"S\""
trim_outer_double_quotes_example = trim_outer_double_quotes_lem (lit "INSERT ON \"S\"")
