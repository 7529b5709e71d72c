-- ===== src/Projection/Roles.antt =====
-- civicpatch.org/src/core/people_roles.py: which office a person's labels imply. The parser of one
-- label and the id of the division that a parse names (shared/src/shared/utils/label_parser.py) are
-- parameters. A set that is only asked for membership is a list.

use civicpatch_tools.Prelude.{
  ℕ, String, Bool, true, false, ◌&&◌, ◌||◌, Option, none, some, List, [], ◌∷◌, ◌==◌, map, mem,
  any_of, first, ltb, nat_eqb, if◌then◌else◌, string_eq,
}
use civicpatch_tools.Prelude.Dict.{Dict, get}
use civicpatch_tools.Prelude.Sort.{max_from}
use civicpatch_tools.Prelude.Stamp.{Stamp, stamp_leb, text_leb}
use civicpatch_tools.Prelude.Each.{flat_map}
use civicpatch_tools.Prelude.Unique.{unique}

-- shared/src/shared/schemas.py
pub data SelectionMethod : Type 0 where
  elected_by_voters elected_by_members appointed : SelectionMethod

-- shared/src/shared/utils/label_parser.py
pub record Division : Type 0 where
  pub designation : String
  pub value : String

pub record ParsedLabel : Type 0 where
  pub role : Option String
  pub roles : List String
  pub division : Option Division
  pub divisions : List Division
  pub other_designations : List String
  pub unmatched : List String

-- shared/src/shared/utils/taxonomy.py
pub record Taxonomy : Type 0 where
  pub role_aliases : Dict String String
  pub designation_aliases : Dict String String
  pub role_priority : Dict String ℕ
  pub designation_priority : Dict String ℕ
  pub role_ids : Dict String String
  pub role_labels : Dict String String
  pub selection_methods : Dict String SelectionMethod
  pub unique_roles : List String

pub record LabelPart : Type 0 where
  pub label : String
  pub parsed : ParsedLabel

pub record DerivedRoles : Type 0 where
  pub labels : List String
  pub parts : List LabelPart
  pub role : Option String
  pub roles : List String
  pub division_ocdid : String
  pub other_designations : List String
  pub unmatched : List String

-- `d.get(k, default)`
abbrev pub or_default : {A : Type 0} → A → Option A → A
or_default default none = default
or_default default (some x) = x

-- A role the taxonomy has no method for may be a post's role.
unfoldable pub selection_method : String → Taxonomy → SelectionMethod
unfolding get
selection_method role taxonomy =
    or_default SelectionMethod.elected_by_voters (get role taxonomy.selection_methods)

unfoldable pub selection_method_rank : SelectionMethod → ℕ
selection_method_rank SelectionMethod.elected_by_voters = 0
selection_method_rank SelectionMethod.elected_by_members = 1
selection_method_rank SelectionMethod.appointed = 2

-- `rank`: the method's rank, then the config's priority, then the role.
unfoldable pub rank : Taxonomy → String → ℕ × Stamp
unfolding selection_method selection_method_rank get
rank taxonomy role = (
  selection_method_rank (selection_method role taxonomy),
  (or_default 1000000 (get role taxonomy.role_priority), role),
)

unfoldable pub rank_leb : ℕ × Stamp → ℕ × Stamp → Bool
unfolding stamp_leb text_leb
rank_leb a b = if ltb a.0 b.0 then true else if ltb b.0 a.0 then false else stamp_leb a.1 b.1

-- `min(roles, key=rank)`, the first of the least.
unfoldable pub winning_role : List String → Taxonomy → Option String
unfolding rank rank_leb max_from
winning_role [] taxonomy = none
winning_role (role ∷ roles) taxonomy =
    some (max_from (λ a b. rank_leb (rank taxonomy b) (rank taxonomy a)) role roles)

abbrev pub is_there : {A : Type 0} → Option A → Bool
is_there none = false
is_there (some x) = true

no_label : ParsedLabel
no_label = record {
  role = none;
  roles = [];
  division = none;
  divisions = [];
  other_designations = [];
  unmatched = [];
}

-- `if not derived.role`: no role, or an empty one.
holds : Option String → (String → Bool) → Bool
holds none test = false
holds (some role) test = if role == "" then false else test role

method_eqb : SelectionMethod → SelectionMethod → Bool
unfolding selection_method_rank
method_eqb a b = nat_eqb (selection_method_rank a) (selection_method_rank b)

-- The winning role is the members' pick, or an office with one holder named with a division.
unfoldable pub holds_a_member_post : DerivedRoles → Taxonomy → Bool
unfolding holds method_eqb selection_method
holds_a_member_post derived taxonomy = holds derived.role (λ role.
    method_eqb (selection_method role taxonomy) SelectionMethod.elected_by_members
    || (mem role taxonomy.unique_roles
        && any_of (λ part. is_there part.parsed.division) derived.parts))

module _ (parse_label : String → ParsedLabel) (division_ocdid : ParsedLabel → String) where
  -- `_division_ocdid`: the first label that names a division decides it.
  unfoldable pub located_division : List ParsedLabel → String
  unfolding no_label
  located_division parsed =
      division_ocdid (or_default no_label (first (λ p. is_there p.division) parsed))

  unfoldable pub derive_roles : List String → Taxonomy → DerivedRoles
  unfolding winning_role located_division unique
  derive_roles labels taxonomy =
      let parsed = map parse_label labels in
      let roles = unique (flat_map (λ p. p.roles) parsed) in
      record {
        labels = labels;
        parts = map (λ label. record { label = label; parsed = parse_label label }) labels;
        role = winning_role roles taxonomy;
        roles = roles;
        division_ocdid = located_division parsed;
        other_designations = unique (flat_map (λ p. p.other_designations) parsed);
        unmatched = unique (flat_map (λ p. p.unmatched) parsed);
      }
