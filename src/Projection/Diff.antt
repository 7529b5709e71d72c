-- ===== src/Projection/Diff.antt =====
-- civicpatch.org/src/core/projection/diff.py: what changes between one roster and another. Of a field,
-- `getattr` gives a text, some texts, or a membership's sources. A post's id is a parameter.
mod Tests
pub mod Same
use civicpatch_tools.Prelude.{
  String, ◌≡◌, ◌↔◌, Bool, true, false, not, ◌&&◌, Option, none, some, List, [], ◌∷◌, ◌==◌, arith,
  map, keep, if◌then◌else◌, HasEq, option_eqb_iff, string_eq, option_eq,
}
use civicpatch_tools.Prelude.Equality.{prod_eq, list_eq}
use civicpatch_tools.Prelude.Dict.{Dict, keys, values, get, has_key, put_all}
use civicpatch_tools.Prelude.Each.{flat_map}
use civicpatch_tools.Prelude.Sort.{sorted}
use civicpatch_tools.Prelude.Stamp.{text_leb}
use civicpatch_tools.Projection.Facts.{PostKey}
use civicpatch_tools.Projection.History.{MembershipSource, Membership, Person, Roster}

pub source_eqb_iff :
    (a b : MembershipSource) → ((a.note == b.note && a.url == b.url) ≡ true) ↔ (a ≡ b)
source_eqb_iff a b = ground (arith, option_eqb_iff a.note b.note, option_eqb_iff a.url b.url)

instance abbrev pub source_eq : HasEq MembershipSource
source_eq = record { eqb = λ a b. a.note == b.note && a.url == b.url; eqb_iff = source_eqb_iff }

pub data Value : Type 0 where
  text : Option String → Value
  texts : List String → Value
  sources_list : List MembershipSource → Value

-- `==` on such values.
unfoldable pub value_eqb : Value → Value → Bool
value_eqb (text a) (text b) = a == b
value_eqb (texts a) (texts b) = a == b
value_eqb (sources_list a) (sources_list b) = a == b
value_eqb _ _ = false

-- `COMPARED_FIELDS`, `COMPARED_MEMBERSHIP_FIELDS`
pub data PersonField : Type 0 where
  name other_names phones emails urls source_urls image cdn_image : PersonField

pub data MembershipField : Type 0 where
  label start_date end_date sources : MembershipField

abbrev pub compared_fields : List PersonField
compared_fields =
    PersonField.name ∷ PersonField.other_names ∷ PersonField.phones ∷ PersonField.emails
    ∷ PersonField.urls ∷ PersonField.source_urls ∷ PersonField.image ∷ PersonField.cdn_image ∷ []

abbrev pub compared_membership_fields : List MembershipField
compared_membership_fields =
    MembershipField.label ∷ MembershipField.start_date ∷ MembershipField.end_date
    ∷ MembershipField.sources ∷ []

abbrev pub field_of : PersonField → Person → Value
field_of PersonField.name p = text p.name
field_of PersonField.other_names p = texts p.other_names
field_of PersonField.phones p = texts p.phones
field_of PersonField.emails p = texts p.emails
field_of PersonField.urls p = texts p.urls
field_of PersonField.source_urls p = texts p.source_urls
field_of PersonField.image p = text p.image
field_of PersonField.cdn_image p = text p.cdn_image

abbrev pub membership_field_of : MembershipField → Membership → Value
membership_field_of MembershipField.label m = text m.label
membership_field_of MembershipField.start_date m = text m.start_date
membership_field_of MembershipField.end_date m = text m.end_date
membership_field_of MembershipField.sources m = sources_list m.sources

pub record FieldDifference : Type 0 where
  pub person_id : String
  pub field : PersonField
  pub before : Value
  pub after : Value

pub record MembershipFieldDifference : Type 0 where
  pub person_id : String
  pub post_id : String
  pub field : MembershipField
  pub before : Value
  pub after : Value

pub record RosterDiff : Type 0 where
  pub only_before : List String
  pub only_after : List String
  pub fields : List FieldDifference
  pub memberships_only_before : List (String × String)
  pub memberships_only_after : List (String × String)
  pub membership_fields : List MembershipFieldDifference

abbrev pub is_nil : {A : Type 0} → List A → Bool
is_nil [] = true
is_nil (x ∷ xs) = false

-- `RosterDiff.empty`
unfoldable pub empty : RosterDiff → Bool
empty d =
    is_nil d.only_before
    && (is_nil d.only_after
        && (is_nil d.fields
            && (is_nil d.memberships_only_before
                && (is_nil d.memberships_only_after && is_nil d.membership_fields))))

unfoldable pub on_roster : Roster → Roster
on_roster roster = record { people = keep (λ p. not (is_nil p.memberships)) roster.people }

-- Pairs compare from the left.
unfoldable pub pair_leb : String × String → String × String → Bool
unfolding text_leb
pair_leb a b = if a.0 == b.0 then text_leb a.1 b.1 else text_leb a.0 b.0

-- `{person.id: person for person in roster.people}`
unfoldable pub people_by_id : Roster → Dict String Person
unfolding put_all
people_by_id roster = put_all [] (map (λ p. (p.id, p)) roster.people)

module _ {K V : Type 0} ⦃e : HasEq K⦄ where
  -- `before.keys() - after.keys()`, `before.keys() & after.keys()`
  abbrev pub keys_only : Dict K V → Dict K V → List K
  keys_only before after = keep (λ k. not (has_key k after)) (keys before)

  abbrev pub keys_both : Dict K V → Dict K V → List K
  keys_both before after = keep (λ k. has_key k after) (keys before)

module _ {V F D : Type 0} (at : F → V → Value) (difference : F → Value → Value → D) where
  -- The fields in which two entries differ. A key that both have has an entry in both.
  unfoldable pub differing : List F → Option V → Option V → List D
  unfolding value_eqb
  differing fields (some x) (some y) =
      map (λ f. difference f (at f x) (at f y))
        (keep (λ f. not (value_eqb (at f x) (at f y))) fields)
  differing fields none y = []
  differing fields (some x) none = []

abbrev pub field_difference : String → PersonField → Value → Value → FieldDifference
field_difference person_id f x y = record {
  person_id = person_id;
  field = f;
  before = x;
  after = y;
}

abbrev pub membership_field_difference :
    String × String → MembershipField → Value → Value → MembershipFieldDifference
membership_field_difference pair f x y = record {
  person_id = pair.0;
  post_id = pair.1;
  field = f;
  before = x;
  after = y;
}

unfoldable pub person_differences : Dict String Person → Dict String Person → List FieldDifference
unfolding differing sorted text_leb get
person_differences before after =
    flat_map
      (λ k. differing field_of (field_difference k) compared_fields (get k before) (get k after))
      (sorted text_leb (keys_both before after))

unfoldable pub membership_differences :
    Dict (String × String) Membership
    → Dict (String × String) Membership
    → List MembershipFieldDifference
unfolding differing sorted text_leb pair_leb get
membership_differences before after =
    flat_map
      (λ k.
        differing membership_field_of (membership_field_difference k) compared_membership_fields
          (get k before) (get k after))
      (sorted pair_leb (keys_both before after))

module _ (post_id : PostKey → String) where
  -- `_memberships`
  unfoldable pub memberships_by_key : Dict String Person → Dict (String × String) Membership
  unfolding put_all
  memberships_by_key people = put_all [] (
      flat_map (λ (p : Person). map (λ m. ((p.id, post_id m.post), m)) p.memberships)
        (values people))

  unfoldable pub roster_diff : Roster → Roster → RosterDiff
  unfolding people_by_id memberships_by_key person_differences membership_differences sorted
      text_leb pair_leb get
  roster_diff before after =
      let people_before = people_by_id before in
      let people_after = people_by_id after in
      let memberships_before = memberships_by_key people_before in
      let memberships_after = memberships_by_key people_after in
      record {
        only_before = sorted text_leb (keys_only people_before people_after);
        only_after = sorted text_leb (keys_only people_after people_before);
        fields = person_differences people_before people_after;
        memberships_only_before = sorted pair_leb (keys_only memberships_before memberships_after);
        memberships_only_after = sorted pair_leb (keys_only memberships_after memberships_before);
        membership_fields = membership_differences memberships_before memberships_after;
      }
