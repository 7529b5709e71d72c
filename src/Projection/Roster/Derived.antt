-- ===== src/Projection/Roster/Derived.antt =====
-- The roster that the fold publishes: one person for each cluster.
use civicpatch_tools.Prelude.{
  ℕ, ◌<◌, String, ◌≡◌, ◌↔◌, refl, some, List, map, length, Has, Distinct, Option-cases, inl, inr,
  string_eq,
}
use civicpatch_tools.Prelude.Dict.{Dict, get, keys}
use civicpatch_tools.Prelude.Groups.{get-of_key}
use civicpatch_tools.Prelude.Each.{each-returns, map-each}
use civicpatch_tools.Prelude.Sort.{sorted, Has-sorted, Distinct-sorted}
use civicpatch_tools.Prelude.Stamp.{text_leb}
use civicpatch_tools.Projection.Facts.{Facts}
use civicpatch_tools.Projection.PersonIds.{without_stale_claims}
use civicpatch_tools.Projection.CanonicalIds.Forest.{Linked}
use civicpatch_tools.Projection.Clusters.{same_as_claims, named}
use civicpatch_tools.Projection.Clusters.Together.{StandTogether, person_clusters-together}
use civicpatch_tools.Projection.Clusters.Roots.{person_clusters-Distinct}
use civicpatch_tools.Projection.History.{Person, Roster}
use civicpatch_tools.Projection.People.Derived.{derive_person-returns}
use civicpatch_tools.Projection.Roles.{Taxonomy}
use civicpatch_tools.Projection.Shared.{Shared}
use civicpatch_tools.Projection.Roster.{person_of_cluster, roster_of}

module _ (shared : Shared) (taxonomy : Taxonomy) where
  person_of_cluster-returns :
      (live : Facts) (clusters : Dict String (List String)) (root_id : String)
      → Has root_id (keys clusters)
      → (person : Person) × (person_of_cluster shared taxonomy live clusters root_id ≡ some person)
  unfolding person_of_cluster
  person_of_cluster-returns live clusters root_id m =
      let (members, e) = get-of_key root_id clusters m in
      let (person, kept, d, id, posts, keeps, read) =
        derive_person-returns shared taxonomy members (without_stale_claims members live) root_id in
      (person, rw e d)

  person_of_cluster-id :
      (live : Facts) (clusters : Dict String (List String)) (root_id : String) (person : Person)
      → person_of_cluster shared taxonomy live clusters root_id ≡ some person
      → person.id ≡ root_id
  unfolding person_of_cluster
  person_of_cluster-id live clusters root_id person h = elim (Option-cases (get root_id clusters)) [
    | inl e ↦ absurd (cc (rw e at h))
    | inr (members, e) ↦
        let (derived, kept, d, id, posts, keeps, read) =
          derive_person-returns shared taxonomy members (without_stale_claims members live)
            root_id in
        let q : derived ≡ person = cc (rw (e, d) at h) in rw (← q) id
  ]

  -- One person for each cluster of ids, as `derive_person` makes it of the facts that are not stale.
  abbrev pub IsOnePerCluster : Facts → Dict String (List String) → Roster → Type 0
  IsOnePerCluster live clusters roster =
      (map (λ p. p.id) roster.people ≡ sorted text_leb (keys clusters))
      × Distinct (map (λ p. p.id) roster.people)
      × ((person : Person)
          → Has person roster.people ↔ (
              (root_id : String) × Has root_id (keys clusters)
              × (person_of_cluster shared taxonomy live clusters root_id ≡ some person)))

  -- With fuel for one step more than there are `same_as` claims about people, the fold of live facts
  -- returns. Its people are one for each cluster, sorted by their ids, no id twice; and two ids that
  -- facts name are in one person's cluster if and only if a chain of `same_as` claims connects them.
  pub roster_of-OnePerCluster :
      (fuel : ℕ) (live : Facts)
      → length (same_as_claims live) < fuel
      → (clusters : Dict String (List String)) × (roster : Roster) × (roster_of shared taxonomy fuel
            live
          ≡ some roster)
        × IsOnePerCluster live clusters roster
        × ((p q : String)
            → Has p (named live)
            → Has q (named live)
            → StandTogether clusters p q ↔ Linked (same_as_claims live) p q)
  unfolding roster_of
  roster_of-OnePerCluster fuel live enough =
      let (clusters, found, together) = person_clusters-together fuel live enough in
      let roots = sorted text_leb (keys clusters) in
      let (people, founds, gave) =
        each-returns (person_of_cluster shared taxonomy live clusters) roots (λ root_id m.
          person_of_cluster-returns live clusters root_id
            ((Has-sorted text_leb root_id (keys clusters)).0 m)) in
      let ids =
        map-each (person_of_cluster shared taxonomy live clusters) (λ p. p.id)
          (person_of_cluster-id live clusters) roots people founds in
      (
        clusters,
        record { people = people },
        rw (found, founds) refl,
        (
          ids,
          rw ids (
              Distinct-sorted text_leb (keys clusters)
                (person_clusters-Distinct fuel live clusters found)),
          λ person. (
            λ h.
                let (root_id, m, e) = (gave person).0 h in
                (root_id, (Has-sorted text_leb root_id (keys clusters)).0 m, e),
            λ (root_id, m, e).
                (gave person).1 (root_id, (Has-sorted text_leb root_id (keys clusters)).1 m, e),
          ),
        ),
        together,
      )
