-- ===== src/Projection/Diff/Tests.antt =====
-- What changes when a membership gets another label.
use civicpatch_tools.Prelude.{String, ◌≡◌, ◌↔◌, refl, true, false, none, some, [], ◌∷◌}
use civicpatch_tools.Projection.Facts.{PostKey}
use civicpatch_tools.Projection.History.{Membership, Person, Roster}
use civicpatch_tools.Projection.Diff.{empty, roster_diff, Value, MembershipField}
use civicpatch_tools.Projection.Diff.Same.{Agree, roster_diff-empty}
use civicpatch_tools.Projection.Town.{mayor}

abbrev office : String → Membership
office label = record {
  post = mayor;
  label = some label;
  opened_at = 10;
  start_date = none;
  end_date = none;
  designations = [];
  unmatched_text = [];
  sources = [];
  extra_roles = [];
}

abbrev ann : String → Person
ann label = record {
  id = "ann";
  name = some "Ann Lee";
  image = none;
  cdn_image = none;
  phones = [];
  emails = [];
  urls = [];
  other_names = [];
  source_urls = [];
  memberships = office label ∷ [];
  edited = false;
}

abbrev town : String → Roster
town label = record { people = ann label ∷ [] }

-- Not mapped to the source's ids, which are hashes.
abbrev post_id : PostKey → String
post_id post = post.role_id

roster_diff-label :
    (roster_diff post_id (town "Mayor") (town "Mayor Pro Tem")).membership_fields
    ≡ record {
      person_id = "ann";
      post_id = "mayor";
      field = MembershipField.label;
      before = Value.text (some "Mayor");
      after = Value.text (some "Mayor Pro Tem");
    }
      ∷ []
unfolding civicpatch_tools.Projection.Diff.roster_diff
    civicpatch_tools.Projection.Diff.person_differences civicpatch_tools.Prelude.Sort.sorted
    civicpatch_tools.Prelude.Dict.get civicpatch_tools.Projection.Names.other_names
    civicpatch_tools.Projection.Names.source_urls
    civicpatch_tools.Projection.FieldValue.current_records civicpatch_tools.Prelude.Dict.group_of
    civicpatch_tools.Prelude.Dict.group_by civicpatch_tools.Prelude.Dict.append_to
    civicpatch_tools.Prelude.Dict.put civicpatch_tools.Projection.FieldValue.records_for
    civicpatch_tools.Prelude.Stamp.stamp_leb civicpatch_tools.Prelude.Stamp.text_leb
    civicpatch_tools.Projection.Facts.record_stamp civicpatch_tools.Prelude.Unique.unique
    civicpatch_tools.Prelude.Unique.unique_onto civicpatch_tools.Projection.Names.keep_spellings
    civicpatch_tools.Projection.Names.is_published civicpatch_tools.Projection.Names.name_value
    civicpatch_tools.Projection.Posts.or_none civicpatch_tools.Projection.FieldValue.stands
    civicpatch_tools.Projection.Facts.kind_eqb civicpatch_tools.Projection.Facts.claim_stamp
    civicpatch_tools.Projection.FieldValue.claims_for civicpatch_tools.Projection.FieldValue.claimed
    civicpatch_tools.Projection.FieldValue.or_else
    civicpatch_tools.Projection.Names.most_common_name civicpatch_tools.Projection.Names.merge_field
    civicpatch_tools.Projection.Names.most civicpatch_tools.Prelude.Sort.max_from
    civicpatch_tools.Projection.Names.first_or_blank civicpatch_tools.Projection.Diff.differing
    civicpatch_tools.Projection.Diff.value_eqb civicpatch_tools.Projection.Diff.pair_leb
    civicpatch_tools.Projection.Diff.memberships_by_key civicpatch_tools.Prelude.Dict.put_all
    civicpatch_tools.Projection.Diff.people_by_id
    civicpatch_tools.Projection.Diff.membership_differences
roster_diff-label = refl

roster_diff-empty_example :
    (empty (roster_diff post_id (town "Mayor") (town "Mayor")) ≡ true)
    ↔ Agree post_id (town "Mayor") (town "Mayor")
roster_diff-empty_example = roster_diff-empty post_id (town "Mayor") (town "Mayor")
