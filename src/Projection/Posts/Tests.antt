-- ===== src/Projection/Posts/Tests.antt =====
-- The posts that a town's records are filed under.
use civicpatch_tools.Prelude.{String, ◌≡◌, ◌↔◌, refl, some, [], ◌∷◌, Has}
use civicpatch_tools.Prelude.Dict.{get, keys}
use civicpatch_tools.Projection.Facts.{SourceRecord, post_eq}
use civicpatch_tools.Projection.Posts.{MembershipRecords, earlier_records, records_by_post}
use civicpatch_tools.Projection.Posts.Buckets.{post_of, read_batch, batch_of, records_by_post_lem}
use civicpatch_tools.Projection.Town.{parse, taxonomy, mayor, facts}

records_by_post-town :
    (keys (records_by_post parse (λ parsed. "town") taxonomy facts.records))
    ≡ mayor ∷ record mayor { organization_id = "agency" } ∷ []
unfolding civicpatch_tools.Projection.Posts.records_by_post
    civicpatch_tools.Projection.Names.other_names civicpatch_tools.Projection.Names.source_urls
    civicpatch_tools.Projection.FieldValue.current_records civicpatch_tools.Prelude.Dict.put
    civicpatch_tools.Prelude.Dict.group_by civicpatch_tools.Prelude.Dict.append_to
    civicpatch_tools.Prelude.Dict.group_of civicpatch_tools.Prelude.Dict.get
    civicpatch_tools.Projection.FieldValue.records_for civicpatch_tools.Prelude.Sort.sorted
    civicpatch_tools.Projection.Facts.record_stamp civicpatch_tools.Prelude.Stamp.stamp_leb
    civicpatch_tools.Prelude.Stamp.text_leb civicpatch_tools.Prelude.Unique.unique
    civicpatch_tools.Prelude.Unique.unique_onto civicpatch_tools.Projection.FieldValue.claims_for
    civicpatch_tools.Projection.Facts.claim_stamp civicpatch_tools.Projection.Facts.kind_eqb
    civicpatch_tools.Projection.Names.keep_spellings civicpatch_tools.Projection.Names.is_published
    civicpatch_tools.Projection.Names.name_value civicpatch_tools.Projection.FieldValue.claimed
    civicpatch_tools.Projection.FieldValue.stands civicpatch_tools.Projection.Posts.or_none
    civicpatch_tools.Projection.FieldValue.or_else
    civicpatch_tools.Projection.Names.most_common_name civicpatch_tools.Projection.Names.merge_field
    civicpatch_tools.Projection.Names.most civicpatch_tools.Prelude.Sort.max_from
    civicpatch_tools.Projection.Names.first_or_blank civicpatch_tools.Projection.Posts.land_all
    civicpatch_tools.Projection.People.own_by_post civicpatch_tools.Projection.Posts.land
    civicpatch_tools.Projection.Posts.parse_labels civicpatch_tools.Projection.Posts.or_text
    civicpatch_tools.Projection.Posts.render civicpatch_tools.Projection.Posts.joined
    civicpatch_tools.Projection.Roles.holds_a_member_post
    civicpatch_tools.Projection.Roles.selection_method_rank
    civicpatch_tools.Projection.Roles.selection_method
    civicpatch_tools.Projection.Roles.derive_roles
    civicpatch_tools.Projection.Roles.located_division
    civicpatch_tools.Projection.Roles.winning_role civicpatch_tools.Projection.Roles.rank_leb
    civicpatch_tools.Projection.Roles.rank civicpatch_tools.Projection.Facts.post_eqb
records_by_post-town = refl

records_by_post_lem_example :
    ((r : SourceRecord)
      → Has r (
          earlier_records
            (get mayor (records_by_post parse (λ parsed. "town") taxonomy facts.records)))
        ↔ (Has r facts.records
            × (post_of parse
                  (λ parsed. "town")
                  taxonomy
                  (read_batch parse (λ parsed. "town") taxonomy (batch_of facts.records r))
                ≡ some mayor)))
    × ((evidence : MembershipRecords)
        → get mayor (records_by_post parse (λ parsed. "town") taxonomy facts.records)
          ≡ some evidence
        → (r : SourceRecord) × Has r facts.records
          × (read_batch parse (λ parsed. "town") taxonomy (batch_of facts.records r)
              ≡ some (mayor, evidence.details)))
records_by_post_lem_example =
    records_by_post_lem parse (λ parsed. "town") taxonomy facts.records mayor
