-- ===== src/Projection/Clusters/Members.antt =====
-- Which ids a cluster has, said of the ids that facts name, in whatever order.
use civicpatch_tools.Prelude.{
  String, ◌≡◌, ◌↔◌, ◌⊎◌, inl, inr, refl, sym, ap, ◌∙◌, some, List, [], ◌∷◌, ◌==◌, Has, Has-map,
  Bool-cases, Option-cases, eq_of_eqb, string_eq,
}
use civicpatch_tools.Prelude.Dict.{Dict, get, keys, put, get-put, Has-keys_of_get}
use civicpatch_tools.Prelude.Groups.{get-of_key}
use civicpatch_tools.Projection.CanonicalIds.{root_in}
use civicpatch_tools.Projection.Clusters.{cluster_all, add_to_cluster, add_member}
use civicpatch_tools.Projection.Clusters.Together.{IsIn, IsIn-add, cluster_all-IsIn, Has-add_member}

-- A cluster has the id that it is known by.
abbrev OwnRoot : Dict String (List String) → Type 0
OwnRoot clusters =
    (r : String) (members : List String) → get r clusters ≡ some members → Has r members

OwnRoot-put :
    (root_id : String) (members : List String) (clusters : Dict String (List String))
    → Has root_id members
    → OwnRoot clusters
    → OwnRoot (put root_id members clusters)
OwnRoot-put root_id members clusters own owns r ms e = elim (Bool-cases (root_id == r)) [
  | inl t ↦
      let h = rw (get-put root_id r members clusters, t) at e in
      let q : members ≡ ms = cc in rw (← q, ← eq_of_eqb root_id r t) own
  | inr f ↦ owns r ms (rw (get-put root_id r members clusters, f) at e)
]

OwnRoot-add :
    (root_id p : String) (clusters : Dict String (List String))
    → OwnRoot clusters
    → OwnRoot (add_to_cluster root_id p clusters (get root_id clusters))
unfolding add_to_cluster
OwnRoot-add root_id p clusters owns = elim (Option-cases (get root_id clusters)) [
  | inl e ↦ rw e (
      OwnRoot-put root_id (add_member p (root_id ∷ [])) clusters
        ((Has-add_member p root_id (root_id ∷ [])).1 (inr (inl refl))) owns)
  | inr (members, e) ↦ rw e (
      OwnRoot-put root_id (add_member p members) clusters
        ((Has-add_member p root_id members).1 (inr (owns root_id members e))) owns)
]

nobody : (r : String) (members : List String) → get r [] ≡ some members → ⊥
unfolding get
nobody r members e = cc

module _ (canonical : Dict String String) where
  OwnRoot-cluster_all :
      (clusters : Dict String (List String)) (ids : List String)
      → OwnRoot clusters
      → OwnRoot (cluster_all canonical clusters ids)
  unfolding cluster_all
  OwnRoot-cluster_all clusters [] owns = owns
  OwnRoot-cluster_all clusters (p ∷ ids) owns =
      OwnRoot-cluster_all
        (add_to_cluster (root_in canonical p) p clusters (get (root_in canonical p) clusters)) ids
        (OwnRoot-add (root_in canonical p) p clusters owns)

  -- The id `r` is some named id's root, and `q` is `r` or a named id whose root is `r`.
  abbrev pub IsRooted : List String → String → String → Type 0
  IsRooted ids r q =
      ((p : String) × Has p ids × (root_in canonical p ≡ r))
      × ((q ≡ r) ⊎ (Has q ids × (root_in canonical q ≡ r)))

  later :
      (p : String) (ids : List String) (r q : String) → IsRooted ids r q → IsRooted (p ∷ ids) r q
  later p ids r q ((o, m, e), h) =
      ((o, inr m, e), elim h [ inl s ↦ inl s | inr (k, s) ↦ inr (inr k, s) ])

  cluster_all-IsRooted :
      (clusters : Dict String (List String)) (ids : List String) (r q : String)
      → IsIn (cluster_all canonical clusters ids) r q
      → IsIn clusters r q ⊎ IsRooted ids r q
  unfolding cluster_all
  cluster_all-IsRooted clusters [] r q h = inl h
  cluster_all-IsRooted clusters (p ∷ ids) r q h =
      elim (cluster_all-IsRooted
        (add_to_cluster (root_in canonical p) p clusters (get (root_in canonical p) clusters)) ids r
        q h) [
          | inr k ↦ inr (later p ids r q k)
          | inl k ↦ elim (IsIn-add (root_in canonical p) p clusters r q k) [
            | inl old ↦ inl old
            | inr (e, new) ↦ inr (
              (p, inl refl, sym e),
              elim new [
                | inl same ↦ inr (inl same, ap (root_in canonical) same ∙ sym e)
                | inr is_root ↦ inl (is_root ∙ sym e)
              ],
            )
          ]
        ]

  -- Who stands in which cluster.
  pub cluster_all-IsIn_iff :
      (ids : List String) (r q : String)
      → IsIn (cluster_all canonical [] ids) r q ↔ IsRooted ids r q
  cluster_all-IsIn_iff ids r q = (
    λ h. elim (cluster_all-IsRooted [] ids r q h) [
      | inl (members, e, m) ↦ absurd (nobody r members e)
      | inr k ↦ k
    ],
    λ ((p, m, e), h). elim h [
      | inl same ↦
          let (members, found, k) = cluster_all-IsIn canonical [] ids r p (inr (m, e)) in
          (
            members,
            found,
            rw same
                (OwnRoot-cluster_all [] ids (λ r' ms n. absurd (nobody r' ms n)) r members found),
          )
      | inr (k, s) ↦ cluster_all-IsIn canonical [] ids r q (inr (k, s))
    ],
  )

  -- A cluster there is, is known by a root of a named id.
  pub Has-keys_iff :
      (ids : List String) (r : String)
      → Has r (keys (cluster_all canonical [] ids)) ↔ IsRooted ids r r
  Has-keys_iff ids r = (
    λ m.
        let (members, e) = get-of_key r (cluster_all canonical [] ids) m in
        (cluster_all-IsIn_iff ids r r).0
          (members, e, OwnRoot-cluster_all [] ids (λ r' ms n. absurd (nobody r' ms n)) r members e),
    λ h.
        let (members, e, m) = (cluster_all-IsIn_iff ids r r).1 h in
        (Has-map (λ (x : String × List String). x.0) (cluster_all canonical [] ids)).1
          ((r, members), Has-keys_of_get r members (cluster_all canonical [] ids) e, refl),
  )
