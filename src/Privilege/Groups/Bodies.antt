-- ===== src/Privilege/Groups/Bodies.antt =====
-- What the statement of a group grants.
use crossplane_provider_hana.Prelude.{
  Bool, true, false, Option, none, some, List, [], ◌∷◌, ◌++◌, ◌≡◌, sym, refl, ap, ◌∙◌, arith,
  contains, ℕ_eq, ℕ, append_assoc,
}
use crossplane_provider_hana.Text.{Text, lit, cut, join, is_empty, has_prefix, drop}
use crossplane_provider_hana.Privilege.{
  Privilege, PrivilegeType, system, source, schema, object, usergroup, column_key, structured,
  base_string, format_object_privilege,
}
use crossplane_provider_hana.Privilege.Groups.{
  group_key, group_of, template, split_identifier, is_object,
}

-- A text without a dot is the whole of what stands before the first one.
cut_at_dot : (s t : Text) → contains s 46 ≡ false → cut (lit ".") (s ++ lit "." ++ t) ≡ some (s, t)
unfolding cut has_prefix drop contains is_empty
cut_at_dot [] t h = refl
cut_at_dot (c ∷ s) t h = ground (arith, cut_at_dot s t)

cut_without_dot : (s : Text) → contains s 46 ≡ false → cut (lit ".") s ≡ none
unfolding cut has_prefix drop contains is_empty
cut_without_dot [] h = refl
cut_without_dot (c ∷ s) h = ground (arith, cut_without_dot s)

abbrev pub same_type : PrivilegeType → Text → Text → Text → Bool → Privilege
same_type t name identifier sub_identifier g = record {
  type = t;
  name = name;
  identifier = identifier;
  sub_identifier = sub_identifier;
  is_grantable = g;
}

object_body :
    (id sub name names : Text) (g : Bool)
    → contains id 46 ≡ false
    → base_string (
        template
          (group_key (same_type object name id sub g))
          names
          (split_identifier true (group_key (same_type object name id sub g)).identifier))
      ≡ base_string (same_type object names id sub g)
unfolding group_key base_string is_empty format_object_privilege
object_body id [] name names g h = rw (cut_without_dot id h) refl
object_body id (c ∷ sub) name names g h =
    ap
      (λ (x : Option (Text × Text)).
        base_string (template (group_key (same_type object name id (c ∷ sub) g)) names x))
      (cut_at_dot id (c ∷ sub) h)

body_of_key :
    (t : PrivilegeType) (id sub name names : Text) (g : Bool)
    → contains id 46 ≡ false
    → base_string (
        template
          (group_key (same_type t name id sub g))
          names
          (split_identifier (is_object t) (group_key (same_type t name id sub g)).identifier))
      ≡ base_string (same_type t names id sub g)
unfolding group_key base_string
body_of_key system id sub name names g h = refl
body_of_key source id sub name names g h = refl
body_of_key schema id sub name names g h = refl
body_of_key object id sub name names g h = object_body id sub name names g h
body_of_key usergroup id sub name names g h = refl
body_of_key column_key id sub name names g h = refl
body_of_key structured id sub name names g h = refl

-- Where the identifier of a privilege holds no dot, the group of its key grants the joined names on
-- just the object of the privilege.
pub group_of_body :
    (p : Privilege) (names : List Text)
    → contains p.identifier 46 ≡ false
    → (group_of (group_key p, names)).body ≡ base_string (record p { name = join (lit ", ") names })
unfolding group_of group_key
group_of_body p names h =
    body_of_key p.type p.identifier p.sub_identifier p.name (join (lit ", ") names) p.is_grantable h

-- Where the schema of an object of a schema holds a dot, the group of its key grants on another
-- object: what follows the first dot of the schema has moved into the object's name.
pub group_of_dotted_schema :
    (a b name sub : Text) (c : ℕ) (g : Bool) (names : List Text)
    → contains a 46 ≡ false
    → (group_of (group_key (same_type object name (a ++ lit "." ++ b) (c ∷ sub) g), names)).body
      ≡ base_string (same_type object (join (lit ", ") names) a (b ++ lit "." ++ c ∷ sub) g)
unfolding group_of group_key base_string is_empty format_object_privilege
group_of_dotted_schema a b name sub c g names h =
    let key = group_key (same_type object name (a ++ lit "." ++ b) (c ∷ sub) g) in
    let start = a ++ lit "." in
    let assoc =
      append_assoc (start ++ b) (lit ".") (c ∷ sub)
      ∙ (append_assoc start b (lit "." ++ c ∷ sub)
          ∙ ap (λ (t : Text). start ++ t) (sym (append_assoc b (lit ".") (c ∷ sub)))) in
    ap (λ (x : Option (Text × Text)). base_string (template key (join (lit ", ") names) x))
      (ap (cut (lit ".")) assoc ∙ cut_at_dot a (b ++ lit "." ++ c ∷ sub) h)
