-- ===== src/Tests/Parsing.antt =====
-- Parsing at inputs of internal/clients/hana/privilege/privilege_test.go.
use crossplane_provider_hana.Prelude.{◌≡◌, refl, true, [], ◌∷◌}
use crossplane_provider_hana.Text.{lit}
use crossplane_provider_hana.Errors.{ok}
use crossplane_provider_hana.Utils.Escapes.{
  convert_backslash_escapes_to_hana_escapes, preprocess_privilege_strings,
}
use crossplane_provider_hana.Privilege.Parse.{
  parse_role_string, format_role_strings, format_privilege_strings,
  format_privilege_strings_with_preprocessing,
}

parse_role :
    parse_role_string (lit " \"A\"\"B\" with admin option")
    ≡ ok (record { name = lit "\"A\"\"B\""; is_grantable = true })
unfolding parse_role_string
parse_role = refl

format_roles :
    format_role_strings (lit "PUBLIC" ∷ lit "s.r WITH ADMIN OPTION" ∷ [])
    ≡ ok (lit "\"PUBLIC\"" ∷ lit "\"s.r\" WITH ADMIN OPTION" ∷ [])
unfolding format_role_strings
format_roles = refl

format_privileges :
    format_privilege_strings
      (lit "SELECT ON SCHEMA X WITH GRANT OPTION"
        ∷ lit "CATALOG READ"
        ∷ lit "INSERT ON A.B"
        ∷ lit "EXECUTE ON T"
        ∷ [])
      (lit "U")
    ≡ ok (
        lit "SELECT ON SCHEMA \"X\" WITH GRANT OPTION"
        ∷ lit "CATALOG READ"
        ∷ lit "INSERT ON \"A\".\"B\""
        ∷ lit "EXECUTE ON \"U\".\"T\""
        ∷ [])
unfolding format_privilege_strings
format_privileges = refl

-- Inputs of internal/utils/utils_test.go.
convert_double_quotes :
    convert_backslash_escapes_to_hana_escapes (lit "INSERT ON SCHEMA \"\"NEW_SCHEMA\"\"")
    ≡ lit "INSERT ON SCHEMA \"NEW_SCHEMA\""
unfolding convert_backslash_escapes_to_hana_escapes
convert_double_quotes = refl

convert_mixed :
    convert_backslash_escapes_to_hana_escapes (lit "S \\\"MY\\\"\\\"SCHEMA\\\"")
    ≡ lit "S \"MY\"\"SCHEMA\""
unfolding convert_backslash_escapes_to_hana_escapes
convert_mixed = refl

-- A well-formed identifier with two quotes in it loses its escapes.
convert_escaped_identifier :
    convert_backslash_escapes_to_hana_escapes (lit "\"a\"\"b\"\"c\"") ≡ lit "\"a\"b\"c\""
unfolding convert_backslash_escapes_to_hana_escapes
convert_escaped_identifier = refl

preprocess :
    preprocess_privilege_strings
      (lit "\"SELECT ON SCHEMA OLD\"" ∷ lit "\"INSERT ON SCHEMA \\\"NEW\\\"\"" ∷ [])
    ≡ lit "SELECT ON SCHEMA OLD" ∷ lit "INSERT ON SCHEMA \"NEW\"" ∷ []
unfolding preprocess_privilege_strings
preprocess = refl

format_with_preprocessing :
    format_privilege_strings_with_preprocessing
      (lit "\"INSERT ON SCHEMA \\\"NEW\\\"\"" ∷ [])
      (lit "U")
    ≡ ok (lit "INSERT ON SCHEMA \"NEW\"" ∷ [])
unfolding format_privilege_strings_with_preprocessing
format_with_preprocessing = refl
