-- ===== src/Projection/Rebuilds/Rosters.antt =====
-- Two rebuilds of the same facts agree.
use civicpatch_tools.Prelude.{String, List, [], string_eq}
use civicpatch_tools.Prelude.Dict.{Dict}
use civicpatch_tools.Projection.Facts.{Facts}
use civicpatch_tools.Projection.Clusters.{named, cluster_all}
use civicpatch_tools.Projection.Shared.{Shared}
use civicpatch_tools.Projection.Rebuilds.{Agreeing}

module _ (a b : Facts) (same : Agreeing a b) where
  module _ (canonical : Dict String String) where
    abbrev clusters_a : Dict String (List String)
    clusters_a = cluster_all canonical [] (named a)

    abbrev clusters_b : Dict String (List String)
    clusters_b = cluster_all canonical [] (named b)
