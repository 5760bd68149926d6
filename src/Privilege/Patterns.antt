-- ===== src/Privilege/Patterns.antt =====
-- The regular expressions of privilege.go and the privilege that each builds from its captures.
use crossplane_provider_hana.Prelude.{ℕ, Bool, ◌||◌, not, List, [], ◌∷◌, ◌++◌, ◌==◌, ℕ_eq, String}
use crossplane_provider_hana.Text.{Text, lit, is_empty}
use crossplane_provider_hana.Regex.{
  Re, char, empty, seq, alt, star, lazy_star, group, boundary, Captures, submatch, word, opt, plus,
  is_blank, is_letter, is_digit,
}
use crossplane_provider_hana.Privilege.{
  Privilege, PrivilegeType, system, source, schema, object, usergroup, column_key, structured,
  clean_identifier,
}

infixr 60 ◌⨾◌
abbrev pub ◌⨾◌ : Re → Re → Re
a ⨾ b = seq a b

abbrev pub blank : Re
blank = char is_blank

abbrev pub is_quote : ℕ → Bool
is_quote c = c == 34

abbrev pub quote : Re
quote = char is_quote

-- `"(?:[^"]|"")*"`
abbrev pub special_identifier : Re
special_identifier = quote ⨾ star (alt (char (λ c. not (is_quote c))) (quote ⨾ quote)) ⨾ quote

-- `[^\s]+`
abbrev pub simple_identifier : Re
simple_identifier = plus (char (λ c. not (is_blank c)))

abbrev pub identifier_pattern : Re
identifier_pattern = alt special_identifier simple_identifier

-- The words of a phrase with `\s+` between them.
abbrev pub phrase : List Text → Re
phrase [] = empty
phrase (w ∷ []) = word w
phrase (w ∷ v ∷ ws) = word w ⨾ plus blank ⨾ phrase (v ∷ ws)

-- `(\s+WITH\s+ADMIN\s+OPTION)?` and `(\s+WITH\s+GRANT\s+OPTION)?` as group i
abbrev pub option_regex : ℕ → String → Re
option_regex i kind =
    opt (group i (plus blank ⨾ phrase (lit "WITH" ∷ lit kind ∷ lit "OPTION" ∷ [])))

abbrev pub dot : Re
dot = char (λ c. c == 46)

-- `(\s+WITH\s+ADMIN\s+OPTION)?\s*$`
abbrev pub role_ending : Re
role_ending = option_regex 2 "ADMIN" ⨾ star blank

-- `(identifier(?:\.identifier)?)`
abbrev pub role_name : Re
role_name = identifier_pattern ⨾ opt (dot ⨾ identifier_pattern)

-- `^\s*(identifier(?:\.identifier)?)(\s+WITH\s+ADMIN\s+OPTION)?\s*$`
unfoldable pub role_regex : Re
unfolding is_blank
role_regex = star blank ⨾ group 1 role_name ⨾ role_ending

-- `([A-Za-z](?:[A-Za-z\s]*?[A-Za-z])?)` as group 1
abbrev pub name_group : Re
name_group =
    group 1
      (char is_letter ⨾ opt (lazy_star (char (λ c. is_letter c || is_blank c)) ⨾ char is_letter))

-- A pattern of the list: leading blanks, a head, an identifier as group i, WITH GRANT OPTION as
-- group i + 1.
abbrev pub ending : Re → Re
ending r = star blank ⨾ r ⨾ option_regex 3 "GRANT" ⨾ star blank

abbrev pub on_phrase : List Text → Re
on_phrase ws = plus blank ⨾ phrase (lit "ON" ∷ ws) ⨾ plus blank ⨾ group 2 identifier_pattern

abbrev pub granted : Captures → ℕ → Bool
granted m i = not (is_empty (submatch m i))

-- A privilege from its captures and the default schema.
abbrev pub Build : Type 0
Build = Captures → Text → Privilege

abbrev pub build : PrivilegeType → (Captures → Text) → (Captures → Text) → Build
build type name identifier m default_schema = record {
  type = type;
  name = name m;
  identifier = identifier m;
  sub_identifier = [];
  is_grantable = granted m 3;
}

abbrev pub first : Captures → Text
first m = submatch m 1

abbrev pub second : Captures → Text
second m = clean_identifier (submatch m 2)

-- <privilege> ON <words> <name>, an object privilege whose identifier keeps the words
abbrev pub special_object : String → List Text → Re × Build
special_object head words =
    (ending (name_group ⨾ on_phrase words), build object first (λ m. lit head ++ second m))

-- schema.object, and an object of the default schema
abbrev pub build_object : Build
build_object m default_schema = record {
  type = object;
  name = first m;
  identifier = second m;
  sub_identifier = clean_identifier (submatch m 3);
  is_grantable = granted m 4;
}

abbrev pub build_default_object : Build
build_default_object m default_schema = record {
  type = object;
  name = first m;
  identifier = default_schema;
  sub_identifier = second m;
  is_grantable = granted m 3;
}

abbrev pub build_structured : Build
build_structured m default_schema = record {
  type = structured;
  name = lit "STRUCTURED PRIVILEGE";
  identifier = clean_identifier (submatch m 1);
  sub_identifier = [];
  is_grantable = granted m 2;
}

abbrev pub build_system : Build
build_system m default_schema = record {
  type = system;
  name = first m;
  identifier = [];
  sub_identifier = [];
  is_grantable = granted m 2;
}

abbrev pub is_name_char : ℕ → Bool
is_name_char c = is_letter c || is_digit c || c == 95

abbrev pub system_regex : Re
system_regex =
    star blank
    ⨾ group 1 (
        char is_letter
        ⨾ opt (lazy_star (char (λ c. is_name_char c || is_blank c)) ⨾ char is_name_char)
        ⨾ opt (dot ⨾ char is_letter ⨾ star (char is_name_char)))
    ⨾ option_regex 2 "ADMIN"
    ⨾ star blank

-- The patterns, in the order in which they are tried.
unfoldable pub privilege_patterns : List (Re × Build)
unfolding clean_identifier submatch is_blank is_letter is_digit
privilege_patterns =
    (
      ending (
          group 1 (phrase (lit "USERGROUP" ∷ lit "OPERATOR" ∷ []))
          ⨾ on_phrase (lit "USERGROUP" ∷ [])),
      build usergroup first second,
    )
    ∷ (
      ending (
          group 1 (phrase (lit "USAGE" ∷ []))
          ⨾ boundary
          ⨾ on_phrase (lit "CLIENTSIDE" ∷ lit "ENCRYPTION" ∷ lit "COLUMN" ∷ lit "KEY" ∷ [])),
      build column_key (λ m. lit "USAGE") second,
    )
    ∷ special_object "PSE " (lit "PSE" ∷ [])
    ∷ special_object "JWT PROVIDER " (lit "JWT" ∷ lit "PROVIDER" ∷ [])
    ∷ special_object "SAML PROVIDER " (lit "SAML" ∷ lit "PROVIDER" ∷ [])
    ∷ special_object "X509 PROVIDER " (lit "X509" ∷ lit "PROVIDER" ∷ [])
    ∷ (
      ending (name_group ⨾ on_phrase (lit "REMOTE" ∷ lit "SOURCE" ∷ [])),
      build source first second,
    )
    ∷ (ending (name_group ⨾ on_phrase (lit "SCHEMA" ∷ [])), build schema first second)
    ∷ (
      star blank
          ⨾ name_group
          ⨾ on_phrase []
          ⨾ dot
          ⨾ group 3 identifier_pattern
          ⨾ option_regex 4 "GRANT"
          ⨾ star blank,
      build_object,
    )
    ∷ (ending (name_group ⨾ on_phrase []), build_default_object)
    ∷ (
      star blank
          ⨾ phrase (lit "STRUCTURED" ∷ lit "PRIVILEGE" ∷ [])
          ⨾ plus blank
          ⨾ group 1 identifier_pattern
          ⨾ option_regex 2 "GRANT"
          ⨾ star blank,
      build_structured,
    )
    ∷ (system_regex, build_system)
    ∷ []
