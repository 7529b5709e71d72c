-- ===== src/Projection/AsOf/Tests.antt =====
-- Two publishes, the second of facts that were observed before the first's.
use civicpatch_tools.Prelude.{◌≡◌, refl, [], ◌∷◌, ℕ, String}
use civicpatch_tools.Prelude.Dict.{Dict}
use civicpatch_tools.Projection.Facts.{Facts}
use civicpatch_tools.Projection.Samples.{no_facts, same_as, scraped}
use civicpatch_tools.Projection.CanonicalIds.{canonical_ids}
use civicpatch_tools.Projection.Clusters.{same_as_claims}
use civicpatch_tools.Projection.PersonIds.{with_person_ids}
use civicpatch_tools.Projection.AsOf.{facts_as_of, snapshot_times}
use civicpatch_tools.Projection.AsOf.Cuts.{
  IsTimeline, snapshot_times-IsTimeline, facts_as_of-identity,
}

abbrev facts : Facts
facts = record no_facts {
  records =
      scraped "r1" "s1" 4 "p" "council" "Ann Lee" ∷ scraped "r2" "s2" 2 "q" "council" "Bo" ∷ [];
  claims = same_as "c1" 20 "p" "q" ∷ [];
}

abbrev published_at : Dict String ℕ
published_at = ("s2", 9) ∷ ("s1", 6) ∷ []

snapshot_times-facts : snapshot_times facts published_at ≡ (6, 4) ∷ (9, 4) ∷ []
unfolding snapshot_times
snapshot_times-facts = refl

snapshot_times-IsTimeline_example : IsTimeline published_at (snapshot_times facts published_at)
snapshot_times-IsTimeline_example = snapshot_times-IsTimeline facts published_at

facts_as_of-identity_example :
    ((fuel : ℕ)
      → canonical_ids fuel (same_as_claims (facts_as_of facts published_at 6))
        ≡ canonical_ids fuel (same_as_claims facts))
    × (with_person_ids (facts_as_of facts published_at 6)
        ≡ facts_as_of (with_person_ids facts) published_at 6)
facts_as_of-identity_example = facts_as_of-identity facts published_at 6
