-- ===== src/Projection/LiveFacts/Undo.antt =====
-- Withdraws of withdraws.
use mathlib.Core.Bool.{or-false}
use civicpatch_tools.Prelude.{
  ℕ, zero, suc, ◌<◌, String, ◌≡◌, ◌≢◌, refl, sym, ap, ◌∙◌, Bool, true, false, some, List, [], ◌∷◌,
  ◌++◌, arith, ◌==◌, Bool-cases, inl, inr, All, All-intro, All-of_Has, Has, keep, keep-append,
  keep_none, keep_congr, any_of, any_of-append, any_of_congr, string_eq, eq_of_eqb, eqb_of_eq,
  Has-append, Has-keep,
}
use civicpatch_tools.Projection.Facts.{SourceRecord, Claim, SourcePage, Facts}
use civicpatch_tools.Projection.LiveFacts.{live_facts}
use civicpatch_tools.Projection.LiveFacts.Memo.{
  points_at, below, IsLiveness, IsRanked, kept, liveness, liveness-IsLiveness, live_facts-eq_kept,
}

-- `w₁` is a withdraw, and `w₂` one that withdraws it; nothing else names either.
pub record IsUndone (ws : List Claim) (w₁ w₂ : Claim) : Type 0 where
  pub undoes : w₂.entity_id ≡ w₁.id
  pub other : w₁.id ≢ w₂.id
  pub w₁_new : All (λ w. w.id ≢ w₁.id) ws
  pub w₁_named : All (λ w. w.entity_id ≢ w₁.id) ws
  pub w₂_named : All (λ w. w.entity_id ≢ w₂.id) ws

not-eqb : (a b : String) → a ≢ b → (a == b) ≡ false
not-eqb a b n = elim (Bool-cases (a == b)) [ inl e ↦ absurd (n (eq_of_eqb a b e)) | inr e ↦ e ]

abbrev with_undo : List Claim → Claim → Claim → List Claim
with_undo ws w₁ w₂ = ws ++ w₁ ∷ w₂ ∷ []

module _ (ws : List Claim) (w₁ w₂ : Claim) (undone : IsUndone ws w₁ w₂) (rank : String → ℕ)
    (ranked : IsRanked rank (with_undo ws w₁ w₂)) where
  ranked_last : (w : Claim) → Has w (w₁ ∷ w₂ ∷ []) → rank w.id < rank w.entity_id
  ranked_last w m = All-of_Has _ (with_undo ws w₁ w₂) ranked ((Has-append w ws _).1 (inr m))

  IsRanked-before : IsRanked rank ws
  IsRanked-before =
      All-intro _ ws
        (λ w m. All-of_Has _ (with_undo ws w₁ w₂) ranked ((Has-append w ws _).1 (inl m)))

  w₁_ne_target : w₁.entity_id ≢ w₁.id
  w₁_ne_target e = let low = ranked_last w₁ (inl refl) in omega (arith, ap rank e)

  w₁_ne_w₂ : w₁.entity_id ≢ w₂.id
  w₁_ne_w₂ e =
      let a = ranked_last w₁ (inl refl) in
      let b = ranked_last w₂ (inr (inl refl)) in omega (arith, ap rank e, ap rank undone.undoes)

  module _ (v u : String → Bool) (lv : IsLiveness ws v)
      (lu : IsLiveness (with_undo ws w₁ w₂) u) where
    w₂_live : u w₂.id ≡ true
    w₂_live =
        lu w₂.id
        ∙ rw (
          keep-append,
          keep_none _ ws (
              All-intro _ ws
                (λ w m. not-eqb w.entity_id w₂.id (All-of_Has _ ws undone.w₂_named m))),
          not-eqb w₁.entity_id w₂.id w₁_ne_w₂,
          not-eqb w₂.entity_id w₂.id (λ e. undone.other (sym undone.undoes ∙ e)),
        )

    w₁_dead : u w₁.id ≡ false
    w₁_dead =
        lu w₁.id
        ∙ rw (
          keep-append,
          keep_none _ ws (
              All-intro _ ws
                (λ w m. not-eqb w.entity_id w₁.id (All-of_Has _ ws undone.w₁_named m))),
          not-eqb w₁.entity_id w₁.id w₁_ne_target,
          eqb_of_eq w₂.entity_id w₁.id undone.undoes,
          w₂_live,
        )

    -- The two new withdraws do not touch any other fact.
    new_silent :
        (fact_id : String)
        → fact_id ≢ w₁.id
        → any_of (λ w. u w.id) (points_at fact_id (w₁ ∷ w₂ ∷ [])) ≡ false
    new_silent fact_id k =
        let e = not-eqb w₂.entity_id fact_id (λ p. k (sym p ∙ undone.undoes)) in
        elim (Bool-cases (w₁.entity_id == fact_id)) [
          | inl t ↦ rw (t, e, w₁_dead)
          | inr f ↦ rw (f, e)
        ]

    same_below :
        (n : ℕ) (fact_id : String) → rank fact_id < n → fact_id ≢ w₁.id → u fact_id ≡ v fact_id
    same_below zero fact_id h k = absurd (omega arith)
    same_below (suc n) fact_id h k =
        let same : All (λ w. u w.id ≡ v w.id) (points_at fact_id ws) =
          All-intro _ (points_at fact_id ws) (λ w m.
            let low =
              All-of_Has _ (points_at fact_id ws) (below ws rank IsRanked-before fact_id) m in
            let listed = ((Has-keep (λ w. w.entity_id == fact_id) w ws).0 m).0 in
            same_below n w.id (omega arith) (All-of_Has _ ws undone.w₁_new listed)) in
        lu fact_id
        ∙ rw
            (
              keep-append,
              any_of-append,
              new_silent fact_id k,
              or-false,
              any_of_congr _ _ (points_at fact_id ws) same,
            )
            (sym (lv fact_id))

    agree : (fact_id : String) → fact_id ≢ w₁.id → u fact_id ≡ v fact_id
    agree fact_id = same_below (suc (rank fact_id)) fact_id (omega arith)

keep_same :
    {A : Type 0} (id : A → String) (xs : List A) {v u : String → Bool} {gone : String}
    → All (λ x. id x ≢ gone) xs
    → ((fact_id : String) → fact_id ≢ gone → u fact_id ≡ v fact_id)
    → keep (λ x. u (id x)) xs ≡ keep (λ x. v (id x)) xs
keep_same id xs h same =
    keep_congr _ _ xs (All-intro _ xs (λ x m. same (id x) (All-of_Has _ xs h m)))

module _ (facts : Facts) (w₁ w₂ : Claim) (undone : IsUndone facts.withdraws w₁ w₂)
    (rank : String → ℕ) (ranked : IsRanked rank (with_undo facts.withdraws w₁ w₂)) (fuel : ℕ)
    (enough : (fact_id : String) → rank fact_id < fuel)
    (own_ids : All (λ r. r.id ≢ w₁.id) facts.records
      × All (λ c. c.id ≢ w₁.id) facts.claims
      × All (λ p. p.id ≢ w₁.id) facts.reads) where
  -- Undo: if a new withdraw is itself withdrawn, the same records, claims, withdraws and page reads
  -- are live as if neither had been filed, and beside them only the second withdraw.
  pub live_facts-undo :
      (live : Facts)
      → live_facts fuel facts ≡ some live
      → live_facts fuel (record facts { withdraws = with_undo facts.withdraws w₁ w₂ })
        ≡ some (record live { withdraws = live.withdraws ++ w₂ ∷ [] })
  live_facts-undo live e =
      let ws = facts.withdraws in
      let before = IsRanked-before ws w₁ w₂ undone rank ranked in
      let after : Facts = record facts { withdraws = with_undo ws w₁ w₂ } in
      let v = liveness ws rank before in
      let u = liveness (with_undo ws w₁ w₂) rank ranked in
      let lv = liveness-IsLiveness ws rank before in
      let lu = liveness-IsLiveness (with_undo ws w₁ w₂) rank ranked in
      let same = agree ws w₁ w₂ undone rank ranked v u lv lu in
      let old : some (kept v facts) ≡ some live =
        sym (live_facts-eq_kept facts rank before fuel enough v lv) ∙ e in
      let new = live_facts-eq_kept after rank ranked fuel enough u lu in
      let parts : kept u after
          ≡ record (kept v facts) { withdraws = (kept v facts).withdraws ++ w₂ ∷ [] } =
        rw (
          keep-append,
          w₁_dead ws w₁ w₂ undone rank ranked v u lv lu,
          w₂_live ws w₁ w₂ undone rank ranked v u lv lu,
          keep_same (λ (r : SourceRecord). r.id) facts.records own_ids.0 same,
          keep_same (λ (c : Claim). c.id) facts.claims own_ids.1 same,
          keep_same (λ (c : Claim). c.id) ws undone.w₁_new same,
          keep_same (λ (p : SourcePage). p.id) facts.reads own_ids.2 same,
        ) in
      new
      ∙ ap some parts
      ∙ ap (λ (f : Facts). some (record f { withdraws = f.withdraws ++ w₂ ∷ [] })) (cc old)
