-- ===== src/Placement/Tests.antt =====
-- A mayor whom only the council's form lists, and a chair who sits on one of two boards.
use civicpatch_tools.Prelude.{
  String, ◌≡◌, ◌≢◌, refl, none, some, List, [], ◌∷◌, map, inl, inr, ne_of_eqb, Distinct, string_eq,
}
use civicpatch_tools.Placement.{
  PlaceableOrganization, label_roles, placed_organization_id, placed_by_roles,
}
use civicpatch_tools.Placement.Only.{IsPlacedFor, placed_organization_id_lem}
use civicpatch_tools.Projection.Town.{parse, taxonomy}

abbrev boards : List PlaceableOrganization
boards =
    record { id = "council"; role_ids = "mayor" ∷ "member" ∷ [] }
    ∷ record { id = "school"; role_ids = "member" ∷ [] }
    ∷ []

boards_once : Distinct (map (λ o. o.id) boards)
boards_once =
    (λ h. elim h [ inl q ↦ ne_of_eqb "council" "school" refl q | inr w ↦ w ], (λ w. w, tt))

abbrev picked : String
picked = "school"

placed-mayor :
    placed_organization_id parse (λ parsed. "town") taxonomy "Mayor" none boards "council" []
    ≡ "council"
unfolding civicpatch_tools.Placement.placed_organization_id
    civicpatch_tools.Projection.Names.source_urls civicpatch_tools.Prelude.Unique.unique
    civicpatch_tools.Prelude.Unique.unique_onto civicpatch_tools.Prelude.Stamp.text_leb
    civicpatch_tools.Projection.FieldValue.current_records civicpatch_tools.Prelude.Dict.put
    civicpatch_tools.Projection.FieldValue.records_for civicpatch_tools.Prelude.Stamp.stamp_leb
    civicpatch_tools.Projection.Names.other_names civicpatch_tools.Collector.Handlers.Steps.failed
    civicpatch_tools.Collector.Scrape.scrape_page civicpatch_tools.Collector.Frontier.update_link
    civicpatch_tools.Collector.Frontier.at_key civicpatch_tools.Collector.Frontier.mark_status
    civicpatch_tools.Collector.Frontier.status_eqb civicpatch_tools.Projection.FieldValue.claimed
    civicpatch_tools.Projection.FieldValue.claims_for civicpatch_tools.Projection.Facts.claim_stamp
    civicpatch_tools.Projection.Facts.kind_eqb civicpatch_tools.Prelude.Sort.sorted
    civicpatch_tools.Projection.FieldValue.stands civicpatch_tools.Projection.Roles.rank
    civicpatch_tools.Projection.Roles.selection_method_rank
    civicpatch_tools.Projection.Roles.selection_method civicpatch_tools.Prelude.Dict.get
    civicpatch_tools.Prelude.Dict.group_by civicpatch_tools.Prelude.Dict.append_to
    civicpatch_tools.Prelude.Dict.group_of civicpatch_tools.Projection.Reads.reads_of
    civicpatch_tools.Projection.PersonIds.drop_stale civicpatch_tools.Projection.PersonIds.stale
    civicpatch_tools.Projection.Facts.entity_eqb civicpatch_tools.Collector.Frontier.dequeue
    civicpatch_tools.Collector.Scrape.should_retry civicpatch_tools.Collector.Frontier.requeue
    civicpatch_tools.Collector.Frontier.from_urls civicpatch_tools.Collector.Frontier.add
    civicpatch_tools.Projection.Names.keep_spellings civicpatch_tools.Projection.Names.is_published
    civicpatch_tools.Projection.Names.name_value civicpatch_tools.Projection.Posts.or_none
    civicpatch_tools.Projection.Names.most_common_name civicpatch_tools.Projection.Names.merge_field
    civicpatch_tools.Projection.Names.most civicpatch_tools.Prelude.Sort.max_from
    civicpatch_tools.Projection.Names.first_or_blank
    civicpatch_tools.Projection.Partial.Filled.filled_in civicpatch_tools.Projection.Partial.stated
    civicpatch_tools.Projection.Partial.blank_list civicpatch_tools.Projection.Partial.blank_cell
    civicpatch_tools.Projection.Partial.blank_text civicpatch_tools.Projection.Partial.fill
    civicpatch_tools.Projection.Partial.carried_into civicpatch_tools.Projection.Facts.record_stamp
    civicpatch_tools.Projection.FieldValue.or_else civicpatch_tools.Projection.Posts.or_text
    civicpatch_tools.Placement.placed_by_roles civicpatch_tools.Projection.Clusters.named
    civicpatch_tools.Placement.sole civicpatch_tools.Placement.label_roles
    civicpatch_tools.Projection.Posts.id_of_role
    civicpatch_tools.Projection.Roles.holds_a_member_post
    civicpatch_tools.Projection.Roles.derive_roles civicpatch_tools.Projection.Roles.winning_role
    civicpatch_tools.Projection.Roles.rank_leb civicpatch_tools.Projection.Roles.located_division
placed-mayor = refl

placed-chair :
    placed_by_roles boards "council" ("school" ∷ []) (some "member") ("member" ∷ []) ≡ "school"
unfolding placed_by_roles
placed-chair = refl

placed_organization_id_lem_example :
    (picked ≢ ""
      → placed_organization_id parse
          (λ parsed. "town")
          taxonomy
          "Mayor"
          (some picked)
          boards
          "council"
          []
        ≡ picked)
    × IsPlacedFor boards "council" [] boards_once
        (label_roles parse (λ parsed. "town") taxonomy "Mayor").post_role_id
        (label_roles parse (λ parsed. "town") taxonomy "Mayor").named_role_ids
        (placed_organization_id parse (λ parsed. "town") taxonomy "Mayor" none boards "council" [])
placed_organization_id_lem_example =
    placed_organization_id_lem boards "council" [] boards_once parse (λ parsed. "town") taxonomy
      "Mayor" picked
