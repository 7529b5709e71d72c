-- ===== src/Projection/Clusters/Tests.antt =====
-- Three ids, two of them merged.
use civicpatch_tools.Prelude.{◌≡◌, refl, arith, some, [], ◌∷◌}
use civicpatch_tools.Projection.Facts.{Facts}
use civicpatch_tools.Projection.Samples.{no_facts, same_as, scraped}
use civicpatch_tools.Projection.Clusters.{person_clusters, same_as_claims}
use civicpatch_tools.Projection.Clusters.Together.{ClustersConnected, person_clusters-together}

abbrev facts : Facts
facts = record no_facts {
  records =
      scraped "r1" "s1" 4 "a" "council" "Ann Lee"
      ∷ scraped "r2" "s1" 4 "b" "council" "A. Lee"
      ∷ scraped "r3" "s1" 4 "c" "council" "Bo"
      ∷ [];
  claims = same_as "1" 5 "a" "b" ∷ [];
}

person_clusters-facts :
    person_clusters 2 facts ≡ some (("b", "b" ∷ "a" ∷ []) ∷ ("c", "c" ∷ []) ∷ [])
unfolding person_clusters
person_clusters-facts = refl

person_clusters-together_example : ClustersConnected 2 facts
unfolding same_as_claims
person_clusters-together_example = person_clusters-together 2 facts (omega arith)
