-- ===== src/Projection/Posts.antt =====
-- civicpatch.org/src/core/projection/posts.py and membership_details.py: which post a person's records
-- in one organization point at, and what else their labels said; `render` of core/membership_label.py.
-- A post's id, a hash of its key, is a parameter, as are the parser of one label and the id of the
-- division that a parse names.
mod Tests
pub mod Buckets
pub mod Organizations
use Prim.Native.String.{◌++◌ as ◌⧺◌}
use civicpatch_tools.Prelude.{
  String, Bool, false, not, Option, none, some, List, [], ◌∷◌, ◌++◌, ◌==◌, map, keep, if◌then◌else◌,
  string_eq, option_eq,
}
use civicpatch_tools.Prelude.Dict.{Dict, get, put, values, group_by, append_to, group_of}
use civicpatch_tools.Prelude.Sort.{sorted}
use civicpatch_tools.Prelude.Stamp.{text_leb, stamp_leb}
use civicpatch_tools.Prelude.Each.{flat_map}
use civicpatch_tools.Prelude.Unique.{unique}
use civicpatch_tools.Prelude.Equality.{prod_eq}
use civicpatch_tools.Projection.Facts.{
  PostKey, post_eq, post_eqb, SourceRecord, record_le, record_stamp,
}
use civicpatch_tools.Projection.Roles.{Taxonomy, ParsedLabel, derive_roles, holds_a_member_post}

pub record LabelDetails : Type 0 where
  pub designations : List String
  pub unmatched_text : List String
  pub extra_roles : List String
  pub derived_membership_label : Option String

pub record MembershipRecords : Type 0 where
  pub records : List SourceRecord
  pub details : LabelDetails

abbrev pub no_details : LabelDetails
no_details = record {
  designations = [];
  unmatched_text = [];
  extra_roles = [];
  derived_membership_label = none;
}

-- `MembershipRecords()`
abbrev pub no_membership_records : MembershipRecords
no_membership_records = record { records = []; details = no_details }

pub record MembershipLabel : Type 0 where
  pub designations : List String
  pub demoted_roles : List String
  pub meta_unmatched_text : List String

-- `separator.joined(parts)`
unfoldable pub joined : String → List String → String
joined separator [] = ""
joined separator (part ∷ []) = part
joined separator (part ∷ other ∷ parts) =
    ◌⧺◌ part (◌⧺◌ separator (joined separator (other ∷ parts)))

unfoldable pub render : MembershipLabel → String
unfolding joined
render label = joined ", " (
    keep (λ part. not (part == ""))
      (label.designations ++ label.demoted_roles ++ label.meta_unmatched_text))

-- `text or None`
unfoldable pub or_none : String → Option String
or_none text = if text == "" then none else some text

-- `value or default`, of texts.
unfoldable pub or_text : Option String → String → String
or_text none default = default
or_text (some text) default = if text == "" then default else text

-- `ids_by_label.get(role) if role else None`
unfoldable pub id_of_role : Option String → Dict String String → Option String
unfolding get
id_of_role none ids_by_label = none
id_of_role (some role) ids_by_label = if role == "" then none else get role ids_by_label

-- `[ids_by_label[label]]` where the label has an id other than the winner's.
extra_role : Option String → Option String → List String
extra_role winner_id none = []
extra_role winner_id (some id) = if some id == winner_id then [] else id ∷ []

-- Whether that list has an element.
is_extra : Option String → Option String → Bool
is_extra winner_id none = false
is_extra winner_id (some id) = not (some id == winner_id)

abbrev pub member_role_id : String
member_role_id = "member"

abbrev pub unmatched_role_id : String
unmatched_role_id = "unmatched"

abbrev pub earlier_records : Option MembershipRecords → List SourceRecord
earlier_records none = []
earlier_records (some evidence) = evidence.records

-- One person's records from one read of one organization.
abbrev pub batch_key : SourceRecord → String × String
batch_key r = (r.changeset_id, r.organization_id)

-- Those, of any person.
abbrev pub person_batch_key : SourceRecord → String × (String × String)
person_batch_key r = (r.changeset_id, (r.organization_id, r.person_id))

module _ (parse_label : String → ParsedLabel) (division_ocdid : ParsedLabel → String)
    (taxonomy : Taxonomy) where
  -- `parse_labels`, of a batch given as its first record and the others.
  unfoldable pub parse_labels : SourceRecord → List SourceRecord → PostKey × LabelDetails
  unfolding derive_roles holds_a_member_post id_of_role or_text or_none extra_role is_extra render
      unique get sorted stamp_leb text_leb record_stamp
  parse_labels first_record records =
      let labels = unique (map (λ r. r.label) (sorted record_le (first_record ∷ records))) in
      let parsed = derive_roles parse_label division_ocdid labels taxonomy in
      let ids_by_label = taxonomy.role_ids in
      let winner_id =
        if holds_a_member_post parsed taxonomy
        then some member_role_id
        else id_of_role parsed.role ids_by_label in
      let unmatched_text = unique (flat_map (λ part. part.parsed.unmatched) parsed.parts) in
      let extra_role_labels =
        keep (λ label. is_extra winner_id (get label ids_by_label)) parsed.roles in
      (
        record {
          organization_id = first_record.organization_id;
          role_id = or_text winner_id unmatched_role_id;
          division_ocdid = parsed.division_ocdid;
        },
        record {
          designations = parsed.other_designations;
          unmatched_text = unmatched_text;
          extra_roles =
              flat_map (λ label. extra_role winner_id (get label ids_by_label)) extra_role_labels;
          derived_membership_label = or_none (
              render (record {
                designations = parsed.other_designations;
                demoted_roles = extra_role_labels;
                meta_unmatched_text = unmatched_text;
              }));
        },
      )

  -- One batch lands in its post, after the records that stand there, with the batch's own details.
  -- A batch has a record: the loop that makes one starts it with one.
  unfoldable pub land :
      Dict PostKey MembershipRecords → List SourceRecord → Dict PostKey MembershipRecords
  unfolding get put post_eqb
  land by_post [] = by_post
  land by_post (r ∷ rs) =
      let (post, details) = parse_labels r rs in
      put post
        (record { records = earlier_records (get post by_post) ++ r ∷ rs; details = details })
        by_post

  unfoldable pub land_all :
      Dict PostKey MembershipRecords → List (List SourceRecord) → Dict PostKey MembershipRecords
  unfolding land
  land_all by_post [] = by_post
  land_all by_post (batch ∷ batches) = land_all (land by_post batch) batches

  unfoldable pub records_by_post : List SourceRecord → Dict PostKey MembershipRecords
  unfolding land_all
  records_by_post records = land_all [] (values (group_by batch_key [] (sorted record_le records)))

  module _ (post_id : PostKey → String) where
    unfoldable pub note_key : Dict String PostKey → List SourceRecord → Dict String PostKey
    unfolding parse_labels put
    note_key by_post_id [] = by_post_id
    note_key by_post_id (r ∷ rs) =
        let key = (parse_labels r rs).0 in put (post_id key) key by_post_id

    unfoldable pub note_keys : Dict String PostKey → List (List SourceRecord) → Dict String PostKey
    unfolding note_key
    note_keys by_post_id [] = by_post_id
    note_keys by_post_id (batch ∷ batches) = note_keys (note_key by_post_id batch) batches

    -- Distinct posts that the records derive, sorted by their ids.
    unfoldable pub post_keys : List SourceRecord → List PostKey
    unfolding note_keys
    post_keys records =
        let batches = group_by person_batch_key [] (sorted record_le records) in
        sorted (λ a b. text_leb (post_id a) (post_id b)) (values (note_keys [] (values batches)))
