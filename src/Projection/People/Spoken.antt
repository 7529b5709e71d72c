-- ===== src/Projection/People/Spoken.antt =====
-- The post of one organization that is kept: the one of which a fact spoke last.
use civicpatch_tools.Prelude.{
  String, ◌≡◌, ◌⊎◌, inl, inr, refl, Bool, true, false, not, Option, some, List, [], ◌∷◌, any_of,
  any_of-true, Has, Bool-cases, Option-cases, string_eq, ◌>>=◌,
}
use civicpatch_tools.Prelude.Dict.{Dict}
use civicpatch_tools.Prelude.Each.{each-returns, Gave}
use civicpatch_tools.Prelude.Sort.{max_from, max_from_lem}
use civicpatch_tools.Prelude.Stamp.{Stamp, stamp_leb, by_stamp-IsOrder}
use civicpatch_tools.Projection.Facts.{PostKey, Facts}
use civicpatch_tools.Projection.Memberships.{post_accepts}
use civicpatch_tools.Projection.Posts.{MembershipRecords}
use civicpatch_tools.Projection.People.{
  is_empty, records_of, newest_membership_fact, greatest_post, collapse_posts,
}

greatest_post_lem :
    (p : PostKey × Stamp) (ps : List (PostKey × Stamp))
    → (w : PostKey × Stamp) × (greatest_post (p ∷ ps) ≡ some w.0)
      × Has w (p ∷ ps)
      × ((q : PostKey × Stamp) → Has q (p ∷ ps) → stamp_leb q.1 w.1 ≡ true)
unfolding greatest_post
greatest_post_lem p ps =
    let (from, top, all) = max_from_lem (by_stamp-IsOrder (λ (x : PostKey × Stamp). x.1)) p ps in
    (
      max_from (λ a b. stamp_leb a.1 b.1) p ps,
      refl,
      from,
      λ q m. elim m [ inl e ↦ rw e top | inr k ↦ all q k ],
    )

module _ (members : List String) (by_post : Dict PostKey MembershipRecords) (facts : Facts) where
  -- Somebody put the cluster in this post.
  abbrev pub is_accepted : PostKey → Bool
  is_accepted post = not (is_empty (post_accepts members post facts))

  -- The newest fact that says the cluster holds this post.
  abbrev pub spoken : PostKey → Option Stamp
  spoken post = newest_membership_fact members post (records_of by_post post) facts

  -- `w` is the post, of these, of which somebody spoke last.
  abbrev pub IsLastSpoken : List PostKey → PostKey → Type 0
  IsLastSpoken posts w =
      Has w posts
      × ((q : PostKey) (s t : Stamp)
          → Has q posts
          → spoken q ≡ some s
          → spoken w ≡ some t
          → stamp_leb s t ≡ true)

  -- What is kept of one organization's posts.
  abbrev pub Keeps : List PostKey → List PostKey → Type 0
  Keeps posts kept =
      ((any_of is_accepted posts ≡ false) × (kept ≡ posts))
      ⊎ ((any_of is_accepted posts ≡ true)
          × ((w : PostKey) × (kept ≡ w ∷ []) × IsLastSpoken posts w))

  abbrev dated : PostKey → Option (PostKey × Stamp)
  dated post = do newest ← spoken post; some (post, newest)

  dated_lem :
      (post : PostKey) (p : PostKey × Stamp)
      → dated post ≡ some p
      → (p.0 ≡ post) × (spoken post ≡ some p.1)
  dated_lem post p h = elim (Option-cases (spoken post)) [
    | inl e ↦ absurd (cc (rw e at h))
    | inr (s, e) ↦ let q : (post, s) ≡ p = cc (rw e at h) in rw (← q) (refl, e)
  ]

  last_of_dated :
      (posts : List PostKey) (ys : List (PostKey × Stamp)) (y : PostKey × Stamp)
      → Gave dated posts ys
      → Has y ys
      → (w : PostKey) × (greatest_post ys ≡ some w) × IsLastSpoken posts w
  last_of_dated posts [] z gave m = absurd m
  last_of_dated posts (y ∷ ys) z gave m =
      let (w, found, has, top) = greatest_post_lem y ys in
      let (p, k, e) = (gave w).0 has in
      let (q, d) = dated_lem p w e in
      (
        w.0,
        found,
        (
          rw q k,
          λ o s t n es et.
              let eq_t : w.1 ≡ t = cc (rw q at et, d) in
              rw (← eq_t) (top (o, s) ((gave (o, s)).1 (o, n, rw es))),
        ),
      )

  pub collapse_posts_lem :
      (posts : List PostKey)
      → ((p : PostKey) → Has p posts → (s : Stamp) × (spoken p ≡ some s))
      → (kept : List PostKey) × (collapse_posts members by_post facts posts ≡ some kept)
        × Keeps posts kept
  unfolding collapse_posts
  collapse_posts_lem posts h = elim (Bool-cases (any_of is_accepted posts)) [
    | inl t ↦
        let (ys, found, gave) =
          each-returns dated posts (λ p m. let (s, e) = h p m in ((p, s), rw e)) in
        let (p, m, _) = any_of-true is_accepted posts t in
        let (s, e) = h p m in
        let (w, won, last) = last_of_dated posts ys (p, s) gave ((gave (p, s)).1 (p, m, rw e)) in
        rw t (w ∷ [], rw (found, won) refl, inr (refl, (w, refl, last)))
    | inr f ↦ rw f (posts, refl, inl (refl, refl))
  ]
