-- ===== src/Projection/Clusters/Roots.antt =====
-- No cluster is known by two ids.
use civicpatch_tools.Prelude.{
  ℕ, String, ◌≡◌, Option, none, some, List, [], ◌∷◌, Distinct, Option-cases, inl, inr, string_eq,
}
use civicpatch_tools.Prelude.Dict.{Dict, get, keys, Distinct-keys-put}
use civicpatch_tools.Projection.Facts.{Facts}
use civicpatch_tools.Projection.Clusters.{
  cluster_all, add_to_cluster, person_clusters, same_as_claims, named,
}
use civicpatch_tools.Projection.CanonicalIds.{root_in, canonical_ids}

Distinct-add_to_cluster :
    (root_id person_id : String) (clusters : Dict String (List String))
    (members : Option (List String))
    → Distinct (keys clusters)
    → Distinct (keys (add_to_cluster root_id person_id clusters members))
unfolding add_to_cluster
Distinct-add_to_cluster root_id person_id clusters none d = Distinct-keys-put root_id _ clusters d
Distinct-add_to_cluster root_id person_id clusters (some members) d =
    Distinct-keys-put root_id _ clusters d

pub Distinct-cluster_all :
    (canonical : Dict String String) (clusters : Dict String (List String)) (ids : List String)
    → Distinct (keys clusters)
    → Distinct (keys (cluster_all canonical clusters ids))
unfolding cluster_all
Distinct-cluster_all canonical clusters [] d = d
Distinct-cluster_all canonical clusters (p ∷ ids) d =
    let root_id = root_in canonical p in
    Distinct-cluster_all canonical (add_to_cluster root_id p clusters (get root_id clusters)) ids
      (Distinct-add_to_cluster root_id p clusters (get root_id clusters) d)

pub person_clusters-Distinct :
    (fuel : ℕ) (live : Facts) (clusters : Dict String (List String))
    → person_clusters fuel live ≡ some clusters
    → Distinct (keys clusters)
unfolding person_clusters
person_clusters-Distinct fuel live clusters h =
    elim (Option-cases (canonical_ids fuel (same_as_claims live))) [
      | inl e ↦ absurd (cc (rw e at h))
      | inr (canonical, e) ↦
          let q : cluster_all canonical [] (named live) ≡ clusters = cc (rw e at h) in
          rw (← q) (Distinct-cluster_all canonical [] (named live) tt)
    ]
