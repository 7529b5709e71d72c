-- ===== src/Placement.antt =====
-- civicpatch.org/src/core/organization_placement.py: which organization a scraped record belongs in.
-- How a label is parsed and how a division is written are parameters, as in Projection.Shared. The
-- roles that a form's labels stand for (`role_ids_of`) are not modelled.
mod Tests
pub mod Only
use civicpatch_tools.Prelude.{
  String, Bool, true, false, not, Option, none, some, List, [], ◌∷◌, ◌==◌, map, mem, keep, any_of,
  if◌then◌else◌, string_eq, option_eq,
}
use civicpatch_tools.Prelude.Dict.{Dict, get}
use civicpatch_tools.Prelude.Each.{flat_map}
use civicpatch_tools.Projection.Roles.{
  Taxonomy, ParsedLabel, DerivedRoles, derive_roles, holds_a_member_post, or_default,
}
use civicpatch_tools.Projection.Posts.{member_role_id, id_of_role, or_text}

pub record PlaceableOrganization : Type 0 where
  pub id : String
  pub role_ids : List String

pub record LabelRoles : Type 0 where
  pub post_role_id : Option String
  pub named_role_ids : List String

-- `[role_ids[role]]`, if the role has an id.
listed : Option String → List String
listed none = []
listed (some id) = id ∷ []

-- `ids[0]`, if `len(ids) == 1`.
unfoldable pub sole : List String → Option String
sole [] = none
sole (id ∷ []) = some id
sole (id ∷ other ∷ ids) = none

-- The organizations whose form lists the role, and those whose form lists one of the roles.
abbrev pub lists : String → PlaceableOrganization → Bool
lists role_id organization = mem role_id organization.role_ids

abbrev pub lists_one : List String → PlaceableOrganization → Bool
lists_one role_ids organization = any_of (λ role_id. mem role_id organization.role_ids) role_ids

abbrev pub ids_where : (PlaceableOrganization → Bool) → List PlaceableOrganization → List String
ids_where test organizations = map (λ o. o.id) (keep test organizations)

module _ (organizations : List PlaceableOrganization) (default : String) (held : List String) where
  -- A member post never goes by the form alone.
  unfoldable pub placed_by_roles : Option String → List String → String
  unfolding sole
  placed_by_roles none named_role_ids = default
  placed_by_roles (some role_id) named_role_ids =
      let listing = ids_where (lists role_id) organizations in
      let named = ids_where (lists_one named_role_ids) organizations in
      or_default (or_default default (sole (keep (λ id. mem id held) named)))
        (if role_id == member_role_id then none else sole listing)

module _ (parse_label : String → ParsedLabel) (division_ocdid : ParsedLabel → String)
    (taxonomy : Taxonomy) where
  unfoldable pub label_roles : String → LabelRoles
  unfolding derive_roles holds_a_member_post id_of_role listed get
  label_roles label =
      let derived = derive_roles parse_label division_ocdid (label ∷ []) taxonomy in
      record {
        post_role_id =
            if holds_a_member_post derived taxonomy
            then some member_role_id
            else id_of_role derived.role taxonomy.role_ids;
        named_role_ids = flat_map (λ role. listed (get role taxonomy.role_ids)) derived.roles;
      }

  unfoldable pub placed_organization_id :
      String → Option String → List PlaceableOrganization → String → List String → String
  unfolding label_roles placed_by_roles or_text
  placed_organization_id label picked organizations default held =
      let roles = label_roles label in
      or_text picked
        (placed_by_roles organizations default held roles.post_role_id roles.named_role_ids)
