-- ===== src/Projection/People/Collapse.antt =====
-- Which of the posts that a cluster holds are kept.
use civicpatch_tools.Prelude.{
  String, ◌≡◌, ◌⊎◌, inl, inr, refl, sym, ◌∙◌, some, List, [], ◌∷◌, ◌==◌, keep, Has, Has-map,
  Has-keep, Bool-cases, keep-All, keep_none, keep-append, All-intro, Distinct, ◌≢◌, ◌++◌, ne_of_eqb,
  eqb_of_eq, eq_of_eqb, string_eq,
}
use mathlib.Core.List.{append-nil}
use civicpatch_tools.Prelude.Dict.{Dict, keys, values, group_by}
use civicpatch_tools.Prelude.Each.{each, flat_map}
use civicpatch_tools.Prelude.Groups.{Has-groups, Has-keys-groups, Distinct-groups}
use civicpatch_tools.Prelude.Stamp.{Stamp}
use civicpatch_tools.Projection.Facts.{PostKey, Facts}
use civicpatch_tools.Projection.Posts.{MembershipRecords}
use civicpatch_tools.Projection.People.{collapse_posts, collapse_per_organization}
use civicpatch_tools.Projection.People.Spoken.{spoken, Keeps, collapse_posts_lem}

abbrev pub in_organization : String → List PostKey → List PostKey
in_organization o posts = keep (λ p. p.organization_id == o) posts

module _ (members : List String) (by_post : Dict PostKey MembershipRecords) (facts : Facts) where
  pub Keeps-subset :
      (posts kept : List PostKey)
      → Keeps members by_post facts posts kept
      → (p : PostKey) → Has p kept
      → Has p posts
  Keeps-subset posts kept h p m = elim h [
    | inl (f, e) ↦ rw e at m
    | inr (t, (w, e, last)) ↦ elim (rw e at m) [ inl q ↦ rw q last.0 | inr n ↦ absurd n ]
  ]

  -- What stands in one organization, and nothing in any other.
  of_one :
      (o : String) (posts kept : List PostKey)
      → Keeps members by_post facts (in_organization o posts) kept
      → (in_organization o kept ≡ kept) × ((o' : String) → o' ≢ o → in_organization o' kept ≡ [])
  of_one o posts kept h =
      let own = λ (p : PostKey) (m : Has p kept).
        eq_of_eqb p.organization_id o
          ((Has-keep _ p posts).0 (Keeps-subset (in_organization o posts) kept h p m)).1 in
      (
        keep-All _ kept (All-intro _ kept (λ p m. eqb_of_eq p.organization_id o (own p m))),
        λ o' n. keep_none _ kept (
            All-intro _ kept (λ p m. elim (Bool-cases (p.organization_id == o')) [
              | inl t ↦ absurd (n (sym (eq_of_eqb p.organization_id o' t) ∙ own p m))
              | inr f ↦ f
            ])),
      )

  abbrev all_of_them : List (List PostKey) → List PostKey
  all_of_them kept = flat_map (λ organization_posts. organization_posts) kept

  -- The kept posts of some organizations' groups.
  collapse_groups :
      (posts : List PostKey) (groups : Dict String (List PostKey))
      → ((p : PostKey) → Has p posts → (s : Stamp) × (spoken members by_post facts p ≡ some s))
      → Distinct (keys groups)
      → ((o : String) (g : List PostKey) → Has (o, g) groups → g ≡ in_organization o posts)
      → (kept : List (List PostKey)) × (each (collapse_posts members by_post facts) (values groups)
          ≡ some kept)
        × ((o : String)
            → (Has o (keys groups)
                × Keeps members by_post facts
                    (in_organization o posts)
                    (in_organization o (all_of_them kept)))
              ⊎ ((¬ Has o (keys groups)) × (in_organization o (all_of_them kept) ≡ [])))
  unfolding each
  collapse_groups posts [] h u own = ([], refl, λ o. inr (λ m. m, refl))
  collapse_groups posts ((o, g) ∷ groups) h u own =
      let mine : g ≡ in_organization o posts = own o g (inl refl) in
      let (k, found, keeps) =
        collapse_posts_lem members by_post facts g
          (λ p m. h p ((Has-keep _ p posts).0 (rw mine at m)).0) in
      let keeps_own : Keeps members by_post facts (in_organization o posts) k = rw mine at keeps in
      let (ks, founds, parts) = collapse_groups posts groups h u.1 (λ o' g' m. own o' g' (inr m)) in
      let (all, none_other) = of_one o posts k keeps_own in
      (
        k ∷ ks,
        rw (found, founds),
        λ o'. elim (Bool-cases (o' == o)) [
          | inl t ↦ same_organization o' (eq_of_eqb o' o t) k ks keeps_own all u.0 (parts o')
          | inr f ↦
              let n = ne_of_eqb o' o f in other_organization o' n k ks (none_other o' n) (parts o')
        ],
      )
    where
      same_organization :
          (o' : String)
          → o' ≡ o
          → (k : List PostKey) (ks : List (List PostKey))
          → Keeps members by_post facts (in_organization o posts) k
          → in_organization o k ≡ k
          → (¬ Has o (keys groups))
          → (Has o' (keys groups)
              × Keeps members by_post facts
                  (in_organization o' posts)
                  (in_organization o' (all_of_them ks)))
            ⊎ ((¬ Has o' (keys groups)) × (in_organization o' (all_of_them ks) ≡ []))
          → (Has o' (o ∷ keys groups)
              × Keeps members by_post facts
                  (in_organization o' posts)
                  (in_organization o' (k ++ all_of_them ks)))
            ⊎ ((¬ Has o' (o ∷ keys groups)) × (in_organization o' (k ++ all_of_them ks) ≡ []))
      same_organization o' e k ks keeps all new (inl (m, _)) = absurd (new (rw e at m))
      same_organization o' e k ks keeps all new (inr (_, nothing)) =
          inl (inl e, rw (keep-append, nothing, append-nil) (rw e (rw all keeps)))

      other_organization :
          (o' : String)
          → o' ≢ o
          → (k : List PostKey) (ks : List (List PostKey)) → in_organization o' k ≡ []
          → (Has o' (keys groups)
              × Keeps members by_post facts
                  (in_organization o' posts)
                  (in_organization o' (all_of_them ks)))
            ⊎ ((¬ Has o' (keys groups)) × (in_organization o' (all_of_them ks) ≡ []))
          → (Has o' (o ∷ keys groups)
              × Keeps members by_post facts
                  (in_organization o' posts)
                  (in_organization o' (k ++ all_of_them ks)))
            ⊎ ((¬ Has o' (o ∷ keys groups)) × (in_organization o' (k ++ all_of_them ks) ≡ []))
      other_organization o' n k ks nothing (inl (m, keeps)) =
          inl (inr m, rw (keep-append, nothing) keeps)
      other_organization o' n k ks nothing (inr (m, e)) =
          inr (λ j. elim j [ inl q ↦ n q | inr r ↦ m r ], rw (keep-append, nothing) e)

  nowhere :
      (o : String) (posts : List PostKey)
      → (¬ Has o (keys (group_by (λ (p : PostKey). p.organization_id) [] posts)))
      → in_organization o posts ≡ []
  nowhere o posts absent = keep_none _ posts (
      All-intro _ posts (λ p m. elim (Bool-cases (p.organization_id == o)) [
        | inl t ↦ absurd (
            absent (
              (Has-keys-groups (λ (p : PostKey). p.organization_id) o posts).1
                ((Has-map _ posts).1 (p, m, sym (eq_of_eqb p.organization_id o t)))))
        | inr f ↦ f
      ]))

  -- If of every post some fact says that the cluster holds it, `collapse_per_organization` returns.
  -- It keeps all of an organization's posts if nobody accepted one of them, else exactly one, the
  -- post of which a fact spoke last.
  pub collapse_per_organization_lem :
      (posts : List PostKey)
      → ((p : PostKey) → Has p posts → (s : Stamp) × (spoken members by_post facts p ≡ some s))
      → (kept : List PostKey) × (collapse_per_organization members posts by_post facts ≡ some kept)
        × ((o : String)
            → Keeps members by_post facts (in_organization o posts) (in_organization o kept))
  unfolding collapse_per_organization
  collapse_per_organization_lem posts h =
      let groups = group_by (λ (p : PostKey). p.organization_id) [] posts in
      let (ks, found, parts) =
        collapse_groups posts groups h (Distinct-groups (λ (p : PostKey). p.organization_id) posts)
          (λ o g m. ((Has-groups (λ (p : PostKey). p.organization_id) o g posts).0 m).1) in
      (
        all_of_them ks,
        rw found refl,
        λ o. elim (parts o) [
          | inl (m, keeps) ↦ keeps
          | inr (absent, nothing) ↦ rw (nowhere o posts absent, nothing) (inl (refl, refl))
        ],
      )
