-- ===== src/Privilege/Groups.antt =====
-- Grouping privileges into the statements of GRANT and REVOKE.
pub mod Laws
pub mod Bodies
use native.Mathlib.Decide.{ℕ_discrete}
use crossplane_provider_hana.Prelude.{
  Bool, true, false, ◌&&◌, not, Option, none, some, List, [], ◌∷◌, ◌++◌, if◌then◌else◌, Eq,
  discrete_eq,
}
use crossplane_provider_hana.Text.{Text, lit, is_empty, cut, join}
use crossplane_provider_hana.Errors.{Result}
use crossplane_provider_hana.GoMap.{GoMap, MapOrder, lookup, assign}
use crossplane_provider_hana.Privilege.{Privilege, PrivilegeType, object, base_string}
use crossplane_provider_hana.Privilege.Parse.{parse_privilege_strings, Result_map}

pub record PrivilegeGroup : Type 0 where
  pub body : Text
  pub is_grantable : Bool
  pub type : PrivilegeType

pub record GroupKey : Type 0 where
  pub type : PrivilegeType
  pub identifier : Text
  pub is_grantable : Bool

pub GroupKey-discrete : Discrete GroupKey
GroupKey-discrete = hlevel ℕ_discrete

instance abbrev pub group_key_eq : Eq GroupKey
group_key_eq = discrete_eq GroupKey-discrete

abbrev pub is_object : PrivilegeType → Bool
is_object object = true
is_object type = false

-- The identifier of a key: for an object of a schema both names, joined by a dot.
unfoldable pub group_key : Privilege → GroupKey
unfolding is_empty
group_key p = record {
  type = p.type;
  identifier =
      if is_object p.type && not (is_empty p.sub_identifier)
      then p.identifier ++ lit "." ++ p.sub_identifier
      else p.identifier;
  is_grantable = p.is_grantable;
}

abbrev pub names_of : Option (List Text) → List Text
names_of none = []
names_of (some names) = names

unfoldable pub add_to_group : Privilege → GoMap GroupKey (List Text) → GoMap GroupKey (List Text)
unfolding group_key lookup assign
add_to_group p groups =
    assign (group_key p) (names_of (lookup groups (group_key p)) ++ p.name ∷ []) groups

-- The first loop: the names of the privileges of each key, in the order of the list.
unfoldable pub collect_groups :
    List Privilege → GoMap GroupKey (List Text) → GoMap GroupKey (List Text)
unfolding add_to_group
collect_groups [] groups = groups
collect_groups (p ∷ ps) groups = collect_groups ps (add_to_group p groups)

-- strings.SplitN(identifier, ".", 2) of a key of an object privilege
abbrev pub split_identifier : Bool → Text → Option (Text × Text)
split_identifier true identifier = cut (lit ".") identifier
split_identifier false identifier = none

abbrev pub template : GroupKey → Text → Option (Text × Text) → Privilege
template key names none = record {
  type = key.type;
  name = names;
  identifier = key.identifier;
  sub_identifier = [];
  is_grantable = false;
}
template key names (some (schema_name, object_name)) = record {
  type = key.type;
  name = names;
  identifier = schema_name;
  sub_identifier = object_name;
  is_grantable = false;
}

unfoldable pub group_of : GroupKey × List Text → PrivilegeGroup
unfolding cut base_string join
group_of (key, names) = record {
  body =
      base_string (
        template key (join (lit ", ") names)
          (split_identifier (is_object key.type) key.identifier));
  is_grantable = key.is_grantable;
  type = key.type;
}

abbrev pub map_groups : List (GroupKey × List Text) → List PrivilegeGroup
map_groups [] = []
map_groups (g ∷ gs) = group_of g ∷ map_groups gs

unfoldable pub group_privileges_by_type_and_identifier :
    MapOrder → List Privilege → List PrivilegeGroup
unfolding collect_groups group_of
group_privileges_by_type_and_identifier o privileges =
    map_groups (o.range (GroupKey × List Text) (collect_groups privileges []))

unfoldable pub group_privileges_by_type : MapOrder → List Text → Text → Result (List PrivilegeGroup)
unfolding parse_privilege_strings group_privileges_by_type_and_identifier
group_privileges_by_type o privilege_strings default_schema =
    Result_map (group_privileges_by_type_and_identifier o)
      (parse_privilege_strings privilege_strings default_schema)
