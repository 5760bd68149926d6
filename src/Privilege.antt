-- ===== src/Privilege.antt =====
-- internal/clients/hana/privilege/privilege.go: privileges and roles, and how they are printed.
pub mod Patterns
pub mod Parse
mod RoleMatch
pub mod Fuel
pub mod RoleForms
pub mod Groups
pub mod Client
pub mod Queries
use crossplane_provider_hana.Prelude.{
  ℕ, Bool, true, false, List, [], ◌∷◌, ◌++◌, ◌==◌, if◌then◌else◌, not, leb, length, ◌&&◌, String,
}
use crossplane_provider_hana.Text.{
  Text, lit, text_eq, has_prefix, trim_prefix, is_empty, replace_all, has_suffix, drop, reverse,
}
use crossplane_provider_hana.Utils.{escape_double_quotes}

pub data PrivilegeType : Type 0 where
  system source schema object usergroup column_key structured : PrivilegeType

pub record Privilege : Type 0 where
  pub type : PrivilegeType
  pub name : Text
  pub identifier : Text
  pub sub_identifier : Text
  pub is_grantable : Bool

pub record Role : Type 0 where
  pub name : Text
  pub is_grantable : Bool

-- PrivilegeType.String
unfoldable pub type_name : PrivilegeType → Text
type_name system = lit "system"
type_name source = lit "source"
type_name schema = lit "schema"
type_name object = lit "object"
type_name usergroup = lit "usergroup"
type_name column_key = lit "column"
type_name structured = lit "structured"

-- `"%s"` of an escaped text
unfoldable pub quoted : Text → Text
unfolding escape_double_quotes
quoted s = lit "\"" ++ escape_double_quotes s ++ lit "\""

unfoldable pub quoted_name : Role → Text
unfolding quoted
quoted_name r = quoted r.name

-- Role.String
unfoldable pub role_string : Role → Text
unfolding quoted_name
role_string r = if r.is_grantable then quoted_name r ++ lit " WITH ADMIN OPTION" else quoted_name r

unfoldable pub format_special_object_privilege : Text → Text → Text
unfolding has_prefix trim_prefix quoted
format_special_object_privilege name identifier =
    if has_prefix (lit "PSE ") identifier
    then name ++ lit " ON PSE " ++ trim_prefix (lit "PSE ") identifier
    else if has_prefix (lit "JWT PROVIDER ") identifier
    then name ++ lit " ON JWT PROVIDER " ++ trim_prefix (lit "JWT PROVIDER ") identifier
    else if has_prefix (lit "SAML PROVIDER ") identifier
    then name ++ lit " ON SAML PROVIDER " ++ trim_prefix (lit "SAML PROVIDER ") identifier
    else if has_prefix (lit "X509 PROVIDER ") identifier
    then name ++ lit " ON X509 PROVIDER " ++ trim_prefix (lit "X509 PROVIDER ") identifier
    else name ++ lit " ON " ++ quoted identifier

unfoldable pub format_object_privilege : Privilege → Text
unfolding format_special_object_privilege is_empty quoted
format_object_privilege p =
    if not (is_empty p.sub_identifier)
    then p.name ++ lit " ON " ++ quoted p.identifier ++ lit "." ++ quoted p.sub_identifier
    else format_special_object_privilege p.name p.identifier

unfoldable pub base_string_of : PrivilegeType → Privilege → Text
unfolding format_object_privilege quoted
base_string_of system p = p.name
base_string_of source p = p.name ++ lit " ON REMOTE SOURCE " ++ quoted p.identifier
base_string_of schema p = p.name ++ lit " ON SCHEMA " ++ quoted p.identifier
base_string_of object p = format_object_privilege p
base_string_of usergroup p = lit "USERGROUP OPERATOR ON USERGROUP " ++ quoted p.identifier
base_string_of column_key p = p.name ++ lit " ON CLIENTSIDE ENCRYPTION COLUMN KEY " ++ p.identifier
base_string_of structured p = p.name ++ lit " " ++ p.identifier

-- Privilege.baseString
unfoldable pub base_string : Privilege → Text
unfolding base_string_of
base_string p = base_string_of p.type p

abbrev pub option_suffix : PrivilegeType → Text
option_suffix system = lit " WITH ADMIN OPTION"
option_suffix other = lit " WITH GRANT OPTION"

-- Privilege.String
unfoldable pub privilege_string : Privilege → Text
unfolding base_string
privilege_string p = if p.is_grantable then base_string p ++ option_suffix p.type else base_string p

-- identifier[1:len(identifier)-1]
unfoldable pub inner : Text → Text
unfolding drop reverse
inner identifier = reverse (drop 1 (reverse (drop 1 identifier)))

unfoldable pub is_quoted : Text → Bool
unfolding has_prefix has_suffix
is_quoted identifier =
    leb 2 (length identifier)
    && has_prefix (lit "\"") identifier
    && has_suffix (lit "\"") identifier

-- cleanIdentifier: takes off the outer quotes and undoubles the inner ones
unfoldable pub clean_identifier : Text → Text
unfolding replace_all is_quoted inner
clean_identifier identifier =
    if is_quoted identifier
    then replace_all (inner identifier) (lit "\"\"") (lit "\"")
    else identifier

-- The privilege that the owner of a schema has on it.
unfoldable pub get_default_privilege : Text → Text
get_default_privilege default_schema =
    lit "CREATE ANY ON SCHEMA \"" ++ default_schema ++ lit "\" WITH GRANT OPTION"
