-- ===== src/Controllers/User/Inputs.antt =====
-- What the handlers of a user compute from the resource before they act: defaults, parameters, the
-- password and the X.509 mappings.
use crossplane_provider_hana.Prelude.{
  ℕ, ◌+◌, ◌*◌, ◌-◌, Bool, true, false, ◌&&◌, not, Option, none, some, List, [], ◌∷◌, ◌++◌, ◌==◌,
  if◌then◌else◌, map, contains, ℕ_eq, leb,
}
use crossplane_provider_hana.Text.{Text, lit, text_eq, to_upper, is_empty, is_space}
use crossplane_provider_hana.Errors.{Result, ok, err, other, wrap, bind}
use crossplane_provider_hana.Exec.{relabel}
use crossplane_provider_hana.GoMap.{GoMap, MapOrder, lookup, assign}
use crossplane_provider_hana.Regex.{is_digit}
use crossplane_provider_hana.Apis.{
  UserSpec, UserParameters, UserObservation, X509UserMapping, Reference, Password,
  SecretKeySelector,
}
use crossplane_provider_hana.Privilege.{get_default_privilege}
use crossplane_provider_hana.Privilege.Parse.{
  format_privilege_strings, format_role_strings, cons_result,
}
use crossplane_provider_hana.Clients.User.{ResolvedUserMapping}
use crossplane_provider_hana.Controllers.User.{Kube}

-- DeepCopy puts the objects behind pointers at new addresses.
abbrev copy_reference : (ℕ → ℕ) → Option Reference → Option Reference
copy_reference fresh none = none
copy_reference fresh (some r) = some (record r { address = fresh r.address })

abbrev pub copy_mapping : (ℕ → ℕ) → X509UserMapping → X509UserMapping
copy_mapping fresh m = record m { provider_ref = copy_reference fresh m.provider_ref }

abbrev copy_mappings : (ℕ → ℕ) → Option (List X509UserMapping) → Option (List X509UserMapping)
copy_mappings fresh none = none
copy_mappings fresh (some ms) = some (map (copy_mapping fresh) ms)

unfoldable pub copy_parameters : (ℕ → ℕ) → UserParameters → UserParameters
copy_parameters fresh p = record p {
  authentication = record (p.authentication) {
    x509_providers = copy_mappings fresh p.authentication.x509_providers;
  };
}

-- handleDefaults
unfoldable pub handle_defaults : (ℕ → ℕ) → UserSpec → UserParameters
unfolding copy_parameters contains get_default_privilege
handle_defaults fresh spec =
    let parameters = copy_parameters fresh spec.for_provider in
    let default_privilege = get_default_privilege parameters.username in
    record parameters {
      privileges =
          if spec.privilege_management_policy == lit "strict"
            && not parameters.restricted_user
            && not (contains parameters.privileges default_privilege)
          then parameters.privileges ++ default_privilege ∷ []
          else parameters.privileges;
      roles =
          if not parameters.restricted_user && not (contains parameters.roles (lit "PUBLIC"))
          then parameters.roles ++ lit "PUBLIC" ∷ []
          else parameters.roles;
    }

-- The digits of a decimal number, and whether there is one.
unfoldable pub leading_number : ℕ → Bool → Text → Option ℕ
unfolding is_digit
leading_number n seen [] = if seen then some n else none
leading_number n seen (c ∷ s) =
    let rest = leading_number (n * 10 + (c - 48)) true s in
    if is_digit c then rest else if seen then some n else none

abbrev within : ℕ → Option ℕ → Bool
within bound none = false
within bound (some n) = leb n bound

abbrev after_sign : Text → Bool
after_sign [] = false
after_sign (c ∷ s) =
    if c == 45
    then within 9223372036854775808 (leading_number 0 false s)
    else if c == 43
    then within 9223372036854775807 (leading_number 0 false s)
    else within 9223372036854775807 (leading_number 0 false (c ∷ s))

-- fmt.Sscanf(value, "%d", new(int)) succeeds: blanks but no newline, a sign, digits of an int64.
unfoldable pub scans_integer : Text → Bool
unfolding is_space leading_number
scans_integer [] = false
scans_integer (c ∷ s) =
    let rest = scans_integer s in
    if c == 10 then false else if is_space c then rest else after_sign (c ∷ s)

abbrev integer_keys : List Text
integer_keys = lit "STATEMENT MEMORY LIMIT" ∷ lit "STATEMENT THREAD LIMIT" ∷ []

-- The loop of transformParameters: keys in upper case, without the integers that do not scan.
unfoldable pub transform_entries : List (Text × Text) → GoMap Text Text → GoMap Text Text
unfolding to_upper contains scans_integer assign
transform_entries [] filtered = filtered
transform_entries ((key, value) ∷ entries) filtered = transform_entries entries (
    if contains integer_keys (to_upper key) && not (scans_integer value)
    then filtered
    else assign (to_upper key) value filtered)

unfoldable pub transform_parameters : MapOrder → GoMap Text Text → GoMap Text Text
unfolding transform_entries
transform_parameters o parameters = transform_entries (o.range (Text × Text) parameters) []

-- The desired privileges and roles in canonical form.
unfoldable pub convert : Text → UserParameters → Result UserParameters
unfolding format_privilege_strings format_role_strings
convert default_schema parameters =
    bind
      (relabel (wrap (lit "cannot convert privileges: "))
        (format_privilege_strings parameters.privileges default_schema))
      λ privileges.
        bind (relabel (wrap (lit "cannot convert roles: ")) (format_role_strings parameters.roles))
          λ roles. ok (record parameters { privileges = privileges; roles = roles })

unfoldable pub build_desired_parameters :
    MapOrder → (ℕ → ℕ) → Text → UserSpec → Result UserParameters
unfolding handle_defaults convert transform_parameters
build_desired_parameters o fresh default_schema spec =
    bind (convert default_schema (handle_defaults fresh spec)) λ parameters.
      ok (record parameters { parameters = transform_parameters o parameters.parameters })

unfoldable pub build_observed_parameters : MapOrder → (ℕ → ℕ) → UserObservation → UserObservation
unfolding transform_parameters
build_observed_parameters o fresh status = record status {
  x509_providers = map (copy_mapping fresh) status.x509_providers;
  parameters = transform_parameters o status.parameters;
}

module _ (kube : Kube) where
  abbrev password_of_data : SecretKeySelector → GoMap Text Text → Result Text
  password_of_data ref entries = elim (lookup entries ref.key) [
    | none ↦ err (
        other (
          lit "key "
          ++ ref.key
          ++ lit " not found in secret "
          ++ ref.namespace
          ++ lit "/"
          ++ ref.name))
    | some password ↦ ok password
  ]

  abbrev password_of_ref : Option SecretKeySelector → Result Text
  password_of_ref none = ok []
  password_of_ref (some ref) =
      bind
        (relabel (wrap (lit "cannot get password secret: "))
          (kube.get_secret ref.namespace ref.name))
        λ entries. password_of_data ref entries

  abbrev password_of : Option Password → Result Text
  password_of none = ok []
  password_of (some pw) = password_of_ref pw.password_secret_ref

  unfoldable pub get_password : UserSpec → Result Text
  unfolding lookup
  get_password spec = password_of spec.for_provider.authentication.password

  abbrev provider_of_ref : Text → Option Reference → Result Text
  provider_of_ref namespace (some ref) =
      relabel (wrap (lit "cannot resolve X.509 provider reference: "))
        (kube.get_x509_provider namespace ref.name)
  provider_of_ref namespace none =
      err (other (lit "cannot resolve X.509 provider reference: no name or providerRef specified"))

  unfoldable pub resolve_mapping : Text → X509UserMapping → Result ResolvedUserMapping
  unfolding is_empty
  resolve_mapping namespace mapping =
      bind
        (if not (is_empty mapping.name)
          then ok mapping.name
          else provider_of_ref namespace mapping.provider_ref)
        λ name. ok (record {
          name = name;
          subject_name =
              if not (is_empty mapping.subject_name) then mapping.subject_name else lit "ANY";
        })

  unfoldable pub resolve_user_mappings :
      Text → List X509UserMapping → Result (List ResolvedUserMapping)
  unfolding resolve_mapping
  resolve_user_mappings namespace [] = ok []
  resolve_user_mappings namespace (m ∷ ms) =
      cons_result (resolve_mapping namespace m) (resolve_user_mappings namespace ms)
