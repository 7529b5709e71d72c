-- ===== src/Projection/Roster/Tests.antt =====
-- The roster of a town of two people.
use civicpatch_tools.Prelude.{
  String, ◌≡◌, ◌↔◌, refl, none, some, List, [], ◌∷◌, Has, arith, Option, map,
}
use civicpatch_tools.Prelude.Dict.{Dict}
use civicpatch_tools.Projection.Facts.{PostKey}
use civicpatch_tools.Projection.CanonicalIds.Forest.{Linked}
use civicpatch_tools.Projection.Clusters.{same_as_claims, named}
use civicpatch_tools.Projection.Clusters.Together.{StandTogether}
use civicpatch_tools.Projection.History.{Roster}
use civicpatch_tools.Projection.Roster.{roster_of, derive_roster}
use civicpatch_tools.Projection.Roster.Derived.{IsOnePerCluster, roster_of-OnePerCluster}
use civicpatch_tools.Projection.Town.{shared, taxonomy, mayor, clerk, facts}

abbrev posts_of_people : Option Roster → List (String × List PostKey)
posts_of_people none = []
posts_of_people (some roster) = map (λ p. (p.id, map (λ m. m.post) p.memberships)) roster.people

derive_roster-town :
    posts_of_people (derive_roster shared taxonomy 3 facts)
    ≡ ("ann", clerk ∷ []) ∷ ("bob", record mayor { organization_id = "agency" } ∷ []) ∷ []
unfolding civicpatch_tools.Projection.Roster.derive_roster
    civicpatch_tools.Projection.Names.other_names civicpatch_tools.Projection.FieldValue.claims_for
    civicpatch_tools.Projection.Facts.claim_stamp civicpatch_tools.Projection.Names.source_urls
    civicpatch_tools.Prelude.Sort.sorted civicpatch_tools.Projection.FieldValue.current_records
    civicpatch_tools.Prelude.Dict.put civicpatch_tools.Prelude.Dict.get
    civicpatch_tools.Prelude.Dict.group_by civicpatch_tools.Prelude.Dict.append_to
    civicpatch_tools.Prelude.Dict.group_of civicpatch_tools.Projection.FieldValue.records_for
    civicpatch_tools.Projection.Facts.record_stamp civicpatch_tools.Prelude.Stamp.stamp_leb
    civicpatch_tools.Prelude.Stamp.text_leb civicpatch_tools.Prelude.Unique.unique
    civicpatch_tools.Prelude.Unique.unique_onto civicpatch_tools.Projection.Facts.kind_eqb
    civicpatch_tools.Projection.Names.name_value civicpatch_tools.Projection.FieldValue.stands
    civicpatch_tools.Projection.FieldValue.or_else civicpatch_tools.Projection.FieldValue.claimed
    civicpatch_tools.Projection.Posts.or_none civicpatch_tools.Projection.Names.most_common_name
    civicpatch_tools.Projection.Names.merge_field civicpatch_tools.Projection.Names.most
    civicpatch_tools.Prelude.Sort.max_from civicpatch_tools.Projection.Names.first_or_blank
    civicpatch_tools.Projection.Names.keep_spellings civicpatch_tools.Projection.Names.is_published
    civicpatch_tools.Projection.Partial.with_inherited_blanks
    civicpatch_tools.Projection.Partial.rewrite_groups
    civicpatch_tools.Projection.Partial.rewrite_group civicpatch_tools.Projection.Partial.stated
    civicpatch_tools.Projection.Partial.blank_list civicpatch_tools.Projection.Partial.blank_text
    civicpatch_tools.Projection.Partial.blank_cell civicpatch_tools.Projection.Partial.fill
    civicpatch_tools.Projection.Partial.carried_into
    civicpatch_tools.Projection.PersonIds.with_person_ids
    civicpatch_tools.Projection.PersonIds.person_id_of
    civicpatch_tools.Projection.PersonIds.claims_about civicpatch_tools.Projection.Facts.entity_eqb
    civicpatch_tools.Projection.PersonIds.value_or_own civicpatch_tools.Projection.Roster.roster_of
    civicpatch_tools.Prelude.Each.each civicpatch_tools.Projection.Clusters.person_clusters
    civicpatch_tools.Projection.Clusters.named
    civicpatch_tools.Projection.CanonicalIds.canonical_ids
    civicpatch_tools.Projection.Clusters.same_as_claims
    civicpatch_tools.Projection.Clusters.cluster_all
    civicpatch_tools.Projection.CanonicalIds.root_in
    civicpatch_tools.Projection.Roster.person_of_cluster
    civicpatch_tools.Projection.People.derive_person civicpatch_tools.Projection.People.active_posts
    civicpatch_tools.Projection.People.candidates
    civicpatch_tools.Projection.Memberships.claimed_posts
    civicpatch_tools.Projection.Memberships.all_posts_claims
    civicpatch_tools.Projection.People.own_by_post civicpatch_tools.Projection.Posts.records_by_post
    civicpatch_tools.Projection.Posts.land_all civicpatch_tools.Projection.Posts.land
    civicpatch_tools.Projection.Posts.parse_labels
    civicpatch_tools.Projection.Roles.holds_a_member_post
    civicpatch_tools.Projection.Roles.selection_method_rank
    civicpatch_tools.Projection.Roles.selection_method civicpatch_tools.Projection.Posts.or_text
    civicpatch_tools.Projection.Roles.derive_roles
    civicpatch_tools.Projection.Roles.located_division
    civicpatch_tools.Projection.Roles.winning_role civicpatch_tools.Projection.Roles.rank
    civicpatch_tools.Projection.Roles.rank_leb civicpatch_tools.Projection.Posts.render
    civicpatch_tools.Projection.Posts.joined civicpatch_tools.Projection.Facts.post_eqb
    civicpatch_tools.Projection.Memberships.membership_state
    civicpatch_tools.Projection.Memberships.post_claims civicpatch_tools.Projection.Reads.reads_of
    civicpatch_tools.Projection.People.records_of
    civicpatch_tools.Projection.People.derive_membership
    civicpatch_tools.Projection.People.membership_sources
    civicpatch_tools.Projection.Memberships.membership_label_claim
    civicpatch_tools.Projection.Memberships.membership_claims
    civicpatch_tools.Projection.People.first_seen civicpatch_tools.Projection.People.fact_created_at
    civicpatch_tools.Projection.Memberships.membership_date
    civicpatch_tools.Projection.People.newest_membership_fact
    civicpatch_tools.Projection.People.fact_stamp
    civicpatch_tools.Projection.Memberships.post_accepts
    civicpatch_tools.Projection.People.collapse_per_organization
    civicpatch_tools.Projection.People.collapse_posts civicpatch_tools.Projection.People.evidence_of
    civicpatch_tools.Projection.People.person_of civicpatch_tools.Projection.Memberships.is_edited
    civicpatch_tools.Projection.FieldValue.list_value
    civicpatch_tools.Projection.FieldValue.scalar_value
    civicpatch_tools.Projection.PersonIds.without_stale_claims
    civicpatch_tools.Projection.PersonIds.drop_stale civicpatch_tools.Projection.PersonIds.stale
    civicpatch_tools.Projection.PostMerges.with_post_merges
    civicpatch_tools.Projection.PostMerges.records_merged
    civicpatch_tools.Projection.PostMerges.post_merges
    civicpatch_tools.Projection.PostMerges.known_keys civicpatch_tools.Projection.Posts.post_keys
    civicpatch_tools.Projection.Posts.note_keys civicpatch_tools.Projection.Posts.note_key
    civicpatch_tools.Projection.PostMerges.posts_of_claims
    civicpatch_tools.Projection.PostMerges.same_office
    civicpatch_tools.Projection.PostMerges.merge_claims_of civicpatch_tools.Prelude.Dict.put_all
    civicpatch_tools.Projection.PostMerges.claims_merged
    civicpatch_tools.Projection.PostMerges.claim_merged
    civicpatch_tools.Projection.PostMerges.post_ids_merged
    civicpatch_tools.Projection.PostMerges.membership_ids_merged
    civicpatch_tools.Projection.PostMerges.person_ids
    civicpatch_tools.Projection.LiveFacts.live_facts
derive_roster-town = refl

roster_of-OnePerCluster_example :
    (clusters : Dict String (List String)) × (roster : Roster) × (roster_of shared taxonomy 2 facts
      ≡ some roster)
    × IsOnePerCluster shared taxonomy facts clusters roster
    × ((p q : String)
        → Has p (named facts)
        → Has q (named facts)
        → StandTogether clusters p q ↔ Linked (same_as_claims facts) p q)
unfolding same_as_claims
roster_of-OnePerCluster_example = roster_of-OnePerCluster shared taxonomy 2 facts (omega arith)
