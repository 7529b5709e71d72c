-- ===== src/Projection/Clusters.antt =====
-- civicpatch.org/src/core/projection/roster.py: `person_clusters`, the ids that are one person. A set
-- of ids is a list without repetition.
mod Tests
pub mod Together
pub mod Roots
pub mod Members
use civicpatch_tools.Prelude.{
  ℕ, String, Bool, true, false, ◌&&◌, Option, none, some, List, [], ◌∷◌, ◌++◌, ◌==◌, ◌>>=◌, map,
  mem, keep, string_eq, option_eq, if◌then◌else◌,
}
use civicpatch_tools.Prelude.Dict.{Dict, get, put}
use civicpatch_tools.Projection.Facts.{
  Claim, ClaimKind, EntityType, Facts, kind_eq, kind_eqb, entity_eq, entity_eqb,
}
use civicpatch_tools.Projection.CanonicalIds.{same_as_field, canonical_ids, root_in}

unfoldable pub same_as_claims : Facts → List Claim
unfolding entity_eqb
same_as_claims live =
    keep (λ c. c.entity_type == EntityType.person && c.field_path == some same_as_field) live.claims

-- Every id that a record, or an accepted name, is about.
unfoldable pub named : Facts → List String
unfolding entity_eqb kind_eqb
named live =
    map (λ r. r.person_id) live.records
    ++ map (λ c. c.entity_id)
        (keep
          (λ c.
            c.entity_type == EntityType.person
            && (c.field_path == some "name" && c.kind == ClaimKind.accept))
          live.claims)

pub add_member : String → List String → List String
add_member person_id members = if mem person_id members then members else members ++ person_id ∷ []

-- `clusters.setdefault(root_id, {root_id}).add(person_id)`
pub add_to_cluster :
    String → String → Dict String (List String) → Option (List String) → Dict String (List String)
unfolding add_member put
add_to_cluster root_id person_id clusters none =
    put root_id (add_member person_id (root_id ∷ [])) clusters
add_to_cluster root_id person_id clusters (some members) =
    put root_id (add_member person_id members) clusters

-- The loop over the named ids.
unfoldable pub cluster_all :
    Dict String String → Dict String (List String) → List String → Dict String (List String)
unfolding add_to_cluster root_in get
cluster_all canonical clusters [] = clusters
cluster_all canonical clusters (person_id ∷ ids) =
    let root_id = root_in canonical person_id in
    cluster_all canonical (add_to_cluster root_id person_id clusters (get root_id clusters)) ids

unfoldable pub person_clusters : ℕ → Facts → Option (Dict String (List String))
unfolding canonical_ids cluster_all named same_as_claims
person_clusters fuel live = do
  canonical ← canonical_ids fuel (same_as_claims live)
  some (cluster_all canonical [] (named live))
