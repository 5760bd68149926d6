-- ===== src/Privilege/Parse.antt =====
-- Parsing privileges and roles, and their canonical forms.
use crossplane_provider_hana.Prelude.{
  Bool, ◌&&◌, not, Option, none, some, List, [], ◌∷◌, ◌++◌, if◌then◌else◌, map, ◌≡◌, refl,
}
use crossplane_provider_hana.Text.{Text, lit, is_empty, to_upper, trim_space, has_suffix, has_text}
use crossplane_provider_hana.Utils.Escapes.{preprocess_privilege_strings}
use crossplane_provider_hana.Errors.{Result, ok, err, other, wrap}
use crossplane_provider_hana.Regex.{Re, Captures, find_submatch, submatch}
use crossplane_provider_hana.Privilege.{
  Privilege, PrivilegeType, system, Role, clean_identifier, role_string, privilege_string,
}
use crossplane_provider_hana.Privilege.Patterns.{role_regex, privilege_patterns, Build}

-- What is parsed, before the fields are cleaned.
abbrev pub role_of_match : Text → Option Captures → Result Role
role_of_match role_str (some m) =
    ok (record { name = submatch m 1; is_grantable = not (is_empty (submatch m 2)) })
role_of_match role_str none =
    if has_suffix (lit "WITH GRANT OPTION") (to_upper (trim_space role_str))
    then err (other (lit "failed to parse role with grantable option: " ++ role_str))
    else err (other (lit "failed to parse role: " ++ role_str))

unfoldable pub parse_role_string : Text → Result Role
unfolding find_submatch submatch role_regex is_empty has_suffix to_upper trim_space
parse_role_string role_str = role_of_match role_str (find_submatch role_regex role_str)

pub parse_role_string_lem :
    (role_str : Text)
    → parse_role_string role_str ≡ role_of_match role_str (find_submatch role_regex role_str)
unfolding parse_role_string
parse_role_string_lem role_str = refl

-- The loop body of GrantRoles, RevokeRoles and FormatRoleStrings: the role with a clean name.
unfoldable pub normalize_role : Role → Role
unfolding clean_identifier
normalize_role role = record role { name = clean_identifier role.name }

abbrev pub Result_map : {A B : Type 0} → (A → B) → Result A → Result B
Result_map f (ok a) = ok (f a)
Result_map f (err e) = err e

-- A loop that stops at the first error.
abbrev pub cons_result : {A : Type 0} → Result A → Result (List A) → Result (List A)
cons_result (err e) rest = err e
cons_result (ok a) (err e) = err e
cons_result (ok a) (ok as') = ok (a ∷ as')

unfoldable pub parse_roles : List Text → Result (List Role)
unfolding parse_role_string normalize_role
parse_roles [] = ok []
parse_roles (r ∷ rs) =
    cons_result (Result_map normalize_role (parse_role_string r)) (parse_roles rs)

unfoldable pub format_role_strings : List Text → Result (List Text)
unfolding parse_roles role_string
format_role_strings role_strings = Result_map (map role_string) (parse_roles role_strings)

-- The semantic validation of a match: a system privilege has no ON and no GRANT OPTION. `none` is
-- the `break` out of the loop.
abbrev validate : Text → Text → Bool → PrivilegeType → Privilege → Option (Result Privilege)
validate priv_str upper has_on system priv =
    if has_on
    then none
    else if has_suffix (lit "WITH GRANT OPTION") upper
    then some (err (other (lit "failed to parse privilege with grant option: " ++ priv_str)))
    else some (ok priv)
validate priv_str upper has_on type priv = some (ok priv)

abbrev pub Match : Type 0
Match = Captures × Build

-- The loop over the patterns: the first that matches.
unfoldable pub first_match : List (Re × Build) → Text → Option Match
unfolding find_submatch
first_match [] priv_str = none
first_match ((re, b) ∷ patterns) priv_str =
    let rest = first_match patterns priv_str in
    elim (find_submatch re priv_str) [ none ↦ rest | some m ↦ some (m, b) ]

-- The validation of the suffix where nothing matched.
unfoldable pub fallback : Text → Text → Bool → Result Privilege
unfolding has_suffix
fallback priv_str upper has_on =
    if not has_on && has_suffix (lit "WITH GRANT OPTION") upper
    then err (other (lit "failed to parse privilege with admin option: " ++ priv_str))
    else if has_on && has_suffix (lit "WITH ADMIN OPTION") upper
    then err (other (lit "failed to parse privilege with admin option: " ++ priv_str))
    else err (other (lit "unknown type of privilege: " ++ priv_str))

abbrev or_fallback : Text → Text → Bool → Option (Result Privilege) → Result Privilege
or_fallback priv_str upper has_on none = fallback priv_str upper has_on
or_fallback priv_str upper has_on (some r) = r

abbrev use_match : Text → Text → Text → Bool → Option Match → Option (Result Privilege)
use_match priv_str default_schema upper has_on none = none
use_match priv_str default_schema upper has_on (some (m, b)) =
    let priv = b m default_schema in validate priv_str upper has_on priv.type priv

unfoldable pub parse_privilege_string : Text → Text → Result Privilege
unfolding first_match privilege_patterns fallback to_upper trim_space has_text has_suffix
parse_privilege_string priv_str default_schema =
    let upper = to_upper (trim_space priv_str) in
    let has_on = has_text upper (lit " ON ") in
    or_fallback priv_str upper has_on
      (use_match priv_str default_schema upper has_on (first_match privilege_patterns priv_str))

abbrev label_parse : Text → Result Privilege → Result Privilege
label_parse priv_str (ok p) = ok p
label_parse priv_str (err e) =
    err (wrap (lit "failed to parse privilege " ++ priv_str ++ lit ": ") e)

unfoldable pub parse_privilege_strings : List Text → Text → Result (List Privilege)
unfolding parse_privilege_string
parse_privilege_strings [] default_schema = ok []
parse_privilege_strings (p ∷ ps) default_schema =
    cons_result (label_parse p (parse_privilege_string p default_schema))
      (parse_privilege_strings ps default_schema)

unfoldable pub format_privilege_strings : List Text → Text → Result (List Text)
unfolding parse_privilege_strings privilege_string
format_privilege_strings privilege_strings username =
    Result_map (map privilege_string) (parse_privilege_strings privilege_strings username)

unfoldable pub format_privilege_strings_with_preprocessing : List Text → Text → Result (List Text)
unfolding format_privilege_strings preprocess_privilege_strings
format_privilege_strings_with_preprocessing privilege_strings username =
    format_privilege_strings (preprocess_privilege_strings privilege_strings) username
