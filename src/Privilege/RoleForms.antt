-- ===== src/Privilege/RoleForms.antt =====
-- Printing a role and parsing what was printed.
use crossplane_provider_hana.Prelude.{
  true, false, List, [], ◌∷◌, ◌++◌, ◌≡◌, refl, arith, length-append, Bool-cases, inl, inr, ap, ℕ_eq,
  map, ◌∙◌, append_assoc, append-nil, sym,
}
use mathlib.Core.Path.{subst}
use crossplane_provider_hana.Text.{Text, text_eq, reverse, drop, replace_all, is_empty}
use crossplane_provider_hana.Text.Laws.{
  double_char, replace_all-double_char, replace_all_halves, reverse-append_one, reverse-reverse,
  has_suffix-append,
}
use crossplane_provider_hana.Errors.{Result, ok, err}
use crossplane_provider_hana.Regex.{between, submatch}
use crossplane_provider_hana.Regex.Laws.{between-append}
use crossplane_provider_hana.Privilege.{
  Role, quoted, is_quoted, inner, clean_identifier, role_string,
}
use crossplane_provider_hana.Privilege.Parse.{
  parse_role_string, role_of_match, parse_role_string_lem, parse_roles, normalize_role,
  format_role_strings, Result_map,
}
use crossplane_provider_hana.Privilege.RoleMatch.{
  in_quotes, admin_suffix, find_role_plain, find_role_admin,
}

quoted-eq : (name tail : Text) → quoted name ++ tail ≡ in_quotes name tail
unfolding quoted
quoted-eq name tail =
    rw (replace_all-double_char 34 name)
      (ap (λ (t : Text). 34 ∷ t) (append_assoc (double_char 34 name) (34 ∷ []) tail))

is_quoted-in_quotes : (name : Text) → is_quoted (in_quotes name []) ≡ true
unfolding is_quoted
is_quoted-in_quotes name = ground (
  arith,
  has_suffix-append (34 ∷ double_char 34 name) (34 ∷ []),
  length-append (double_char 34 name) (34 ∷ []),
)

inner-in_quotes : (name : Text) → inner (in_quotes name []) ≡ double_char 34 name
unfolding inner
inner-in_quotes name =
    ap (λ (t : Text). reverse (drop 1 t)) (reverse-append_one (double_char 34 name) 34)
    ∙ reverse-reverse (double_char 34 name)

clean_of_quoted :
    (t : Text)
    → is_quoted t ≡ true
    → clean_identifier t ≡ replace_all (inner t) (34 ∷ 34 ∷ []) (34 ∷ [])
unfolding clean_identifier
clean_of_quoted t h = rw h refl

-- Cleaning a quoted text gives the text back, whatever quotes it holds.
pub clean_identifier-quoted : (s : Text) → clean_identifier (quoted s) ≡ s
clean_identifier-quoted s =
    ap clean_identifier (sym (append-nil (quoted s)) ∙ quoted-eq s [])
    ∙ (clean_of_quoted (in_quotes s []) (is_quoted-in_quotes s)
        ∙ (ap (λ (t : Text). replace_all t (34 ∷ 34 ∷ []) (34 ∷ [])) (inner-in_quotes s)
            ∙ replace_all_halves 34 s))

between-in_quotes : (name tail : Text) → between (in_quotes name tail) tail ≡ quoted name
between-in_quotes name tail = rw (← quoted-eq name tail) (between-append (quoted name) tail)

role_string_admin :
    (r : Role) → r.is_grantable ≡ true → role_string r ≡ in_quotes r.name admin_suffix
unfolding role_string
role_string_admin r h = rw h (quoted-eq r.name admin_suffix)

role_string_plain : (r : Role) → r.is_grantable ≡ false → role_string r ≡ in_quotes r.name []
unfolding role_string
role_string_plain r h = rw h (sym (append-nil (quoted r.name)) ∙ quoted-eq r.name [])

-- The printed form of a role, whatever characters its name has, parses to the quoted name and the
-- same option.
pub parse_role_string-role_string :
    (r : Role)
    → parse_role_string (role_string r)
      ≡ ok (record { name = quoted r.name; is_grantable = r.is_grantable })
unfolding submatch is_empty
parse_role_string-role_string r = elim (Bool-cases r.is_grantable) [
  | inl admin ↦
      ap parse_role_string (role_string_admin r admin)
      ∙ (parse_role_string_lem (in_quotes r.name admin_suffix)
          ∙ (ap (role_of_match _) (find_role_admin r.name) ∙ λ i. ok (record {
            name = between-in_quotes r.name admin_suffix i;
            is_grantable = sym admin i;
          })))
  | inr plain ↦
      ap parse_role_string (role_string_plain r plain)
      ∙ (parse_role_string_lem (in_quotes r.name [])
          ∙ (ap (role_of_match _) (find_role_plain r.name) ∙ λ i.
              ok (record { name = between-in_quotes r.name [] i; is_grantable = sym plain i })))
]

normalize_quoted :
    (r : Role) → normalize_role (record { name = quoted r.name; is_grantable = r.is_grantable }) ≡ r
unfolding normalize_role
normalize_quoted r =
    λ i. record { name = clean_identifier-quoted r.name i; is_grantable = r.is_grantable }

-- Printing a list of roles and parsing it, with the names cleaned, gives the roles back.
pub parse_roles-map-role_string :
    (roles : List Role) → parse_roles (map role_string roles) ≡ ok roles
unfolding parse_roles
parse_roles-map-role_string [] = refl
parse_roles-map-role_string (r ∷ roles) =
    rw (parse_role_string-role_string r, parse_roles-map-role_string roles)
      (ap (λ (x : Role). ok (x ∷ roles)) (normalize_quoted r))

format_role_strings_lem :
    (texts : List Text)
    → format_role_strings texts ≡ Result_map (map role_string) (parse_roles texts)
unfolding format_role_strings
format_role_strings_lem texts = refl

format_of_parsed :
    (rs : Result (List Role)) {texts : List Text}
    → Result_map (map role_string) rs ≡ ok texts
    → format_role_strings texts ≡ ok texts
format_of_parsed (ok roles) {texts} h =
    let e : map role_string roles ≡ texts = cc in
    subst (λ t. format_role_strings t ≡ ok t) e
      (format_role_strings_lem (map role_string roles)
        ∙ ap (Result_map (map role_string)) (parse_roles-map-role_string roles))
format_of_parsed (err e) h = cc

-- What FormatRoleStrings returns is canonical: formatting it again changes nothing.
pub format_role_strings_idempotent :
    (role_strings : List Text) {texts : List Text}
    → format_role_strings role_strings ≡ ok texts
    → format_role_strings texts ≡ ok texts
format_role_strings_idempotent role_strings h =
    format_of_parsed (parse_roles role_strings) (sym (format_role_strings_lem role_strings) ∙ h)
