-- ===== src/Projection/Roster.antt =====
-- civicpatch.org/src/core/projection/roster.py: the fold, every fact about one jurisdiction in, the
-- people it publishes out. The address that an image is published at (core/images.py) is a parameter.
-- `none` stands for a loop that does not end or an error.
mod Tests
pub mod Derived
use civicpatch_tools.Prelude.{
  ℕ, String, Option, none, some, List, [], ◌∷◌, ◌==◌, ◌>>=◌, map, mem, keep, if◌then◌else◌,
  string_eq, option_eq,
}
use civicpatch_tools.Prelude.Dict.{Dict, get, keys}
use civicpatch_tools.Prelude.Each.{each, flat_map}
use civicpatch_tools.Prelude.Sort.{sorted}
use civicpatch_tools.Prelude.Stamp.{text_leb}
use civicpatch_tools.Projection.Facts.{Facts}
use civicpatch_tools.Projection.LiveFacts.{live_facts}
use civicpatch_tools.Projection.PersonIds.{with_person_ids, without_stale_claims}
use civicpatch_tools.Projection.Partial.{with_inherited_blanks}
use civicpatch_tools.Projection.PostMerges.{with_post_merges}
use civicpatch_tools.Projection.Clusters.{person_clusters}
use civicpatch_tools.Projection.History.{Person, Roster}
use civicpatch_tools.Projection.Names.{PageValue, overridden_source_values}
use civicpatch_tools.Projection.People.{derive_person, is_empty}
use civicpatch_tools.Projection.Roles.{Taxonomy}
use civicpatch_tools.Projection.Shared.{Shared}

-- Whether an image waits to be published, and the address it is served at.
served_image : (Option String → Option String) → List String → Option String → Option String
served_image published_image_url unpublished none = published_image_url none
served_image published_image_url unpublished (some image) =
    if mem image unpublished then some image else published_image_url (some image)

unfoldable pub with_published_images :
    (Option String → Option String) → List String → Roster → Roster
unfolding served_image
with_published_images published_image_url unpublished roster = record {
  people =
      map
        (λ (person : Person). record person {
          cdn_image = served_image published_image_url unpublished person.cdn_image;
        })
        roster.people;
}

-- `[image]`, if there is one and it is not empty.
image_of : Option String → List String
image_of none = []
image_of (some image) = if image == "" then [] else image ∷ []

unfoldable pub unpublished_images : Facts → Option String → List String
unfolding image_of
unpublished_images facts including_changeset_id =
    flat_map (λ r. image_of r.cdn_image)
      (keep (λ r. some r.changeset_id == including_changeset_id) facts.records)

module _ (shared : Shared) (taxonomy : Taxonomy) where
  -- The person of one cluster. Its root is a key of the clusters.
  unfoldable pub person_of_cluster : Facts → Dict String (List String) → String → Option Person
  person_of_cluster live clusters root_id = do
    members ← get root_id clusters
    derive_person shared taxonomy root_id members (without_stale_claims members live)

  -- What the fold makes of facts whose every kind of correction has been applied.
  unfoldable pub roster_of : ℕ → Facts → Option Roster
  roster_of fuel live = do
    clusters ← person_clusters fuel live
    people ← each (person_of_cluster live clusters) (sorted text_leb (keys clusters))
    some (record { people = people })

  unfoldable pub derive_roster : ℕ → Facts → Option Roster
  derive_roster fuel facts = do
    counted ← live_facts fuel facts
    live ← with_post_merges shared taxonomy fuel (with_inherited_blanks (with_person_ids counted))
    roster_of fuel live

  -- Per person, what the page says where a claim overrode it.
  unfoldable pub overridden_page_values : ℕ → Facts → Option (Dict String (Dict String PageValue))
  overridden_page_values fuel facts = do
    counted ← live_facts fuel facts
    let live = with_person_ids counted
    clusters ← person_clusters fuel live
    some (
        flat_map
          (λ e.
            let values = overridden_source_values shared e.1 live in
            if is_empty values then [] else (e.0, values) ∷ [])
          clusters)
