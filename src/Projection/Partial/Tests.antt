-- ===== src/Projection/Partial/Tests.antt =====
-- A page's listing, and then a sheet that states only an email.
use civicpatch_tools.Prelude.{
  String, ◌≡◌, ◌≢◌, refl, true, none, some, [], ◌∷◌, map, inl, inr, ne_of_eqb, Has, string_eq,
}
use civicpatch_tools.Projection.Facts.{SourceRecord, Facts}
use civicpatch_tools.Projection.Samples.{no_facts, scraped}
use civicpatch_tools.Projection.Partial.{with_inherited_blanks}
use civicpatch_tools.Projection.Partial.Seats.{IsFilled, with_inherited_blanks_lem}

abbrev listed : SourceRecord
listed = record (scraped "r1" "s1" 10 "ann" "council" "Ann Lee") { phone = some "555-0100" }

abbrev sheet : SourceRecord
sheet = record (scraped "r2" "s2" 20 "ann" "council" "Ann Lee") {
  label = " ";
  email = some "ann@town.gov";
  is_partial = true;
}

abbrev facts : Facts
facts = record no_facts { records = sheet ∷ listed ∷ [] }

with_inherited_blanks-sheet :
    (with_inherited_blanks facts).records
    ≡ record sheet { label = "Mayor"; phone = some "555-0100" } ∷ listed ∷ []
unfolding civicpatch_tools.Projection.Partial.with_inherited_blanks
    civicpatch_tools.Projection.Partial.rewrite_groups
    civicpatch_tools.Projection.Facts.record_stamp civicpatch_tools.Projection.Names.other_names
    civicpatch_tools.Projection.Names.source_urls
    civicpatch_tools.Projection.FieldValue.current_records civicpatch_tools.Prelude.Dict.get
    civicpatch_tools.Collector.Frontier.from_urls civicpatch_tools.Collector.Frontier.add
    civicpatch_tools.Prelude.Dict.put civicpatch_tools.Prelude.Dict.group_of
    civicpatch_tools.Collector.Handlers.Steps.failed civicpatch_tools.Collector.Scrape.scrape_page
    civicpatch_tools.Collector.Frontier.dequeue civicpatch_tools.Projection.FieldValue.claimed
    civicpatch_tools.Projection.FieldValue.claims_for civicpatch_tools.Projection.Facts.claim_stamp
    civicpatch_tools.Prelude.Stamp.stamp_leb civicpatch_tools.Prelude.Stamp.text_leb
    civicpatch_tools.Projection.Facts.kind_eqb civicpatch_tools.Prelude.Sort.sorted
    civicpatch_tools.Projection.FieldValue.stands civicpatch_tools.Projection.PersonIds.drop_stale
    civicpatch_tools.Projection.PersonIds.stale civicpatch_tools.Projection.Facts.entity_eqb
    civicpatch_tools.Projection.Reads.reads_of civicpatch_tools.Projection.Roles.rank
    civicpatch_tools.Projection.Roles.selection_method_rank
    civicpatch_tools.Projection.Roles.selection_method civicpatch_tools.Prelude.Dict.group_by
    civicpatch_tools.Prelude.Dict.append_to civicpatch_tools.Collector.Scrape.should_retry
    civicpatch_tools.Collector.Frontier.update_link civicpatch_tools.Collector.Frontier.at_key
    civicpatch_tools.Collector.Frontier.mark_status civicpatch_tools.Collector.Frontier.status_eqb
    civicpatch_tools.Collector.Frontier.requeue civicpatch_tools.Projection.FieldValue.records_for
    civicpatch_tools.Prelude.Unique.unique civicpatch_tools.Prelude.Unique.unique_onto
    civicpatch_tools.Projection.Names.name_value civicpatch_tools.Projection.Posts.or_none
    civicpatch_tools.Projection.FieldValue.or_else
    civicpatch_tools.Projection.Names.most_common_name civicpatch_tools.Projection.Names.merge_field
    civicpatch_tools.Projection.Partial.Filled.filled_in civicpatch_tools.Projection.Partial.fill
    civicpatch_tools.Projection.Partial.carried_into civicpatch_tools.Projection.Partial.blank_list
    civicpatch_tools.Projection.Partial.blank_cell civicpatch_tools.Projection.Partial.blank_text
    civicpatch_tools.Projection.Partial.stated civicpatch_tools.Projection.Names.most
    civicpatch_tools.Prelude.Sort.max_from civicpatch_tools.Projection.Names.first_or_blank
    civicpatch_tools.Projection.Names.keep_spellings civicpatch_tools.Projection.Names.is_published
    civicpatch_tools.Projection.Partial.rewrite_group
with_inherited_blanks-sheet = refl

with_inherited_blanks_lem_example :
    (fill_in : SourceRecord → SourceRecord) × (with_inherited_blanks facts
      ≡ record facts { records = map fill_in facts.records })
    × ((r : SourceRecord) → Has r facts.records → IsFilled facts fill_in r)
with_inherited_blanks_lem_example =
    with_inherited_blanks_lem facts
      (λ h. elim h [ inl q ↦ ne_of_eqb "r2" "r1" refl q | inr w ↦ w ], (λ w. w, tt))
