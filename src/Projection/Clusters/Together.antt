-- ===== src/Projection/Clusters/Together.antt =====
-- The clusters, against the chains of `same_as` claims.
use civicpatch_tools.Prelude.{
  ℕ, ◌<◌, String, ◌≡◌, ◌↔◌, ◌⊎◌, inl, inr, refl, sym, ap, ◌∙◌, some, List, [], ◌∷◌, mem, mem_iff,
  Has, Has-append, Bool-cases, Option-cases, length, string_eq, ◌==◌, eq_of_eqb,
}
use mathlib.Core.Path.{subst}
use civicpatch_tools.Prelude.Dict.{Dict, get, get-put, get-put_self}
use civicpatch_tools.Projection.Facts.{Facts}
use civicpatch_tools.Projection.CanonicalIds.{root_in}
use civicpatch_tools.Projection.CanonicalIds.Forest.{Linked}
use civicpatch_tools.Projection.CanonicalIds.Connected.{canonical_ids-connected}
use civicpatch_tools.Projection.Clusters.{
  same_as_claims, named, add_member, add_to_cluster, cluster_all, person_clusters,
}

pub Has-add_member :
    (p q : String) (members : List String)
    → Has q (add_member p members) ↔ ((q ≡ p) ⊎ Has q members)
unfolding add_member
Has-add_member p q members = elim (Bool-cases (mem p members)) [
  | inl t ↦ rw t (λ h. inr h, λ h. elim h [ inl e ↦ rw e ((mem_iff p members).0 t) | inr m ↦ m ])
  | inr f ↦ rw f (
    λ h. elim ((Has-append q members (p ∷ [])).0 h) [
      | inl m ↦ inr m
      | inr m ↦ elim m [ inl e ↦ inl e | inr z ↦ absurd z ]
    ],
    λ h. (Has-append q members (p ∷ [])).1 (elim h [ inl e ↦ inr (inl e) | inr m ↦ inl m ]),
  )
]

-- Who stands in the cluster at a root; nobody where there is none.
abbrev pub IsIn : Dict String (List String) → String → String → Type 0
IsIn clusters root p = (members : List String) × (get root clusters ≡ some members) × Has p members

-- What the loop's body does to the cluster at a root, and to the others.
pub IsIn-add :
    (root p : String) (clusters : Dict String (List String)) (r q : String)
    → IsIn (add_to_cluster root p clusters (get root clusters)) r q
    → IsIn clusters r q ⊎ ((r ≡ root) × ((q ≡ p) ⊎ (q ≡ root)))
unfolding add_to_cluster
IsIn-add root p clusters r q = elim (Option-cases (get root clusters)) [
  | inl none_there ↦ rw none_there (λ (members, e, m). elim (Bool-cases (root == r)) [
    | inl t ↦
        let same : some (add_member p (root ∷ [])) ≡ some members =
          rw (get-put root r (add_member p (root ∷ [])) clusters, t) at e in
        let is : add_member p (root ∷ []) ≡ members = cc in
        inr (
          sym (eq_of_eqb root r t),
          elim ((Has-add_member p q (root ∷ [])).0 (rw (← is) at m)) [
            | inl a ↦ inl a
            | inr a ↦ elim a [ inl b ↦ inr b | inr z ↦ absurd z ]
          ],
        )
    | inr f ↦ inl (members, rw (get-put root r (add_member p (root ∷ [])) clusters, f) at e, m)
  ])
  | inr (old, there) ↦ rw there (λ (members, e, m). elim (Bool-cases (root == r)) [
    | inl t ↦
        let same : some (add_member p old) ≡ some members =
          rw (get-put root r (add_member p old) clusters, t) at e in
        let is : add_member p old ≡ members = cc in
        elim ((Has-add_member p q old).0 (rw (← is) at m)) [
          | inl a ↦ inr (sym (eq_of_eqb root r t), inl a)
          | inr a ↦ inl (old, rw (← eq_of_eqb root r t) there, a)
        ]
    | inr f ↦ inl (members, rw (get-put root r (add_member p old) clusters, f) at e, m)
  ])
]

add-IsIn :
    (root p : String) (clusters : Dict String (List String))
    → IsIn (add_to_cluster root p clusters (get root clusters)) root p
unfolding add_to_cluster
add-IsIn root p clusters = elim (Option-cases (get root clusters)) [
  | inl e ↦ rw e (
    add_member p (root ∷ []),
    get-put_self root (add_member p (root ∷ [])) clusters,
    (Has-add_member p p (root ∷ [])).1 (inl refl),
  )
  | inr (old, e) ↦ rw e (
    add_member p old,
    get-put_self root (add_member p old) clusters,
    (Has-add_member p p old).1 (inl refl),
  )
]

kept-IsIn :
    (root p : String) (clusters : Dict String (List String)) (r q : String)
    → IsIn clusters r q
    → IsIn (add_to_cluster root p clusters (get root clusters)) r q
unfolding add_to_cluster
kept-IsIn root p clusters r q (members, e, m) = elim (Option-cases (get root clusters)) [
  | inl none_there ↦ rw none_there (elim (Bool-cases (root == r)) [
    | inl t ↦ absurd (cc (sym e ∙ ap (λ k. get k clusters) (sym (eq_of_eqb root r t)) ∙ none_there))
    | inr f ↦ (members, rw (get-put root r (add_member p (root ∷ [])) clusters, f) e, m)
  ])
  | inr (old, there) ↦ rw there (elim (Bool-cases (root == r)) [
    | inl t ↦
        let same : some old ≡ some members =
          sym there ∙ ap (λ k. get k clusters) (eq_of_eqb root r t) ∙ e in
        let is : old ≡ members = cc in
        (
          add_member p old,
          rw (get-put root r (add_member p old) clusters, t) refl,
          (Has-add_member p q old).1 (inr (rw is m)),
        )
    | inr f ↦ (members, rw (get-put root r (add_member p old) clusters, f) e, m)
  ])
]

module _ (canonical : Dict String String) where
  -- Who stands in a cluster has its root, or is it.
  abbrev AreRooted : Dict String (List String) → Type 0
  AreRooted clusters = (r p : String) → IsIn clusters r p → (p ≡ r) ⊎ (root_in canonical p ≡ r)

  cluster_all-AreRooted :
      (clusters : Dict String (List String)) (ids : List String)
      → AreRooted clusters
      → AreRooted (cluster_all canonical clusters ids)
  unfolding cluster_all
  cluster_all-AreRooted clusters [] rooted = rooted
  cluster_all-AreRooted clusters (p ∷ ids) rooted =
      cluster_all-AreRooted
        (add_to_cluster (root_in canonical p) p clusters (get (root_in canonical p) clusters)) ids
        (λ r q h. elim (IsIn-add (root_in canonical p) p clusters r q h) [
          | inl old ↦ rooted r q old
          | inr (e, new) ↦ elim new [
            | inl same ↦ inr (ap (root_in canonical) same ∙ sym e)
            | inr is_root ↦ inl (is_root ∙ sym e)
          ]
        ])

  pub cluster_all-IsIn :
      (clusters : Dict String (List String)) (ids : List String) (r q : String)
      → IsIn clusters r q ⊎ (Has q ids × (root_in canonical q ≡ r))
      → IsIn (cluster_all canonical clusters ids) r q
  unfolding cluster_all
  cluster_all-IsIn clusters [] r q h = elim h [ inl m ↦ m | inr (z, e) ↦ absurd z ]
  cluster_all-IsIn clusters (p ∷ ids) r q h =
      cluster_all-IsIn
        (add_to_cluster (root_in canonical p) p clusters (get (root_in canonical p) clusters)) ids r
        q
        (elim h [
          | inl m ↦ inl (kept-IsIn (root_in canonical p) p clusters r q m)
          | inr (m, e) ↦ elim m [
            | inl same ↦ inl (
                subst
                  (λ x.
                    IsIn
                      (add_to_cluster (root_in canonical p) p clusters
                        (get (root_in canonical p) clusters))
                      x q)
                  (ap (root_in canonical) (sym same) ∙ e)
                  (rw same (add-IsIn (root_in canonical p) p clusters)))
            | inr n ↦ inr (n, e)
          ]
        ])

-- Two ids stand in one cluster.
abbrev pub StandTogether : Dict String (List String) → String → String → Type 0
StandTogether clusters p q = (root : String) × IsIn clusters root p × IsIn clusters root q

abbrev pub ClustersConnected : ℕ → Facts → Type 0
ClustersConnected fuel live =
    (clusters : Dict String (List String)) × (person_clusters fuel live ≡ some clusters)
    × ((p q : String)
        → Has p (named live)
        → Has q (named live)
        → StandTogether clusters p q ↔ Linked (same_as_claims live) p q)

-- With fuel for one step more than there are `same_as` claims about people, `person_clusters`
-- returns, and two ids that facts name stand together in a cluster if and only if a chain of those
-- claims connects them.
pub person_clusters-together :
    (fuel : ℕ) (live : Facts) → length (same_as_claims live) < fuel → ClustersConnected fuel live
unfolding person_clusters
person_clusters-together fuel live enough =
    let (canonical, e, connected, own) =
      canonical_ids-connected fuel (same_as_claims live) enough in
    let nobody : AreRooted canonical [] = λ r p (members, h, m). absurd (cc h) in
    let rooted = cluster_all-AreRooted canonical [] (named live) nobody in
    let reaches : (root p : String)
        → IsIn (cluster_all canonical [] (named live)) root p
        → Linked (same_as_claims live) p root =
      λ root p h. elim (rooted root p h) [
        | inl same ↦ Linked.same same
        | inr r ↦ rw r at (own p)
      ] in
    (
      cluster_all canonical [] (named live),
      rw e refl,
      λ p q named_p named_q. (
        λ (root, a, b). Linked.chain (reaches root p a) (Linked.back (reaches root q b)),
        λ linked. (
          root_in canonical p,
          cluster_all-IsIn canonical [] (named live) (root_in canonical p) p (inr (named_p, refl)),
          cluster_all-IsIn canonical [] (named live) (root_in canonical p) q
              (inr (named_q, sym ((connected p q).1 linked))),
        ),
      ),
    )
