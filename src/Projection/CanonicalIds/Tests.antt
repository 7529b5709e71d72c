-- ===== src/Projection/CanonicalIds/Tests.antt =====
-- A merge chain, filed out of order.
use civicpatch_tools.Prelude.{String, ◌≡◌, ◌↔◌, refl, some, List, [], ◌∷◌, arith, string_eq}
use civicpatch_tools.Prelude.Dict.{Dict}
use civicpatch_tools.Projection.Facts.{Claim}
use civicpatch_tools.Projection.Samples.{no_facts, same_as}
use civicpatch_tools.Projection.CanonicalIds.{canonical_ids, root_in, with_merges, without_merges}
use civicpatch_tools.Projection.CanonicalIds.Forest.{Linked}
use civicpatch_tools.Projection.CanonicalIds.Connected.{canonical_ids-connected}

abbrev merges : List Claim
merges = same_as "2" 7 "b" "c" ∷ same_as "1" 5 "a" "b" ∷ []

canonical_ids-merges : canonical_ids 3 merges ≡ some (("a", "c") ∷ ("b", "c") ∷ [])
unfolding canonical_ids
canonical_ids-merges = refl

canonical_ids-connected_example :
    (d : Dict String String) × (canonical_ids 3 merges ≡ some d)
    × ((p q : String) → (root_in d p ≡ root_in d q) ↔ Linked merges p q)
    × ((p : String) → Linked merges p (root_in d p))
canonical_ids-connected_example = canonical_ids-connected 3 merges (omega arith)

-- The matcher sees none of the merges.
without_merges-with_merges :
    (without_merges (with_merges (record no_facts { claims = merges }) (("d", "a") ∷ []) 9)).claims
    ≡ []
unfolding without_merges with_merges civicpatch_tools.Prelude.Sort.sorted
without_merges-with_merges = refl
