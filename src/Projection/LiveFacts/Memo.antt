-- ===== src/Projection/LiveFacts/Memo.antt =====
-- `live_facts` with its memo, against the liveness that the withdraws define.
use civicpatch_tools.Prelude.{
  ℕ, zero, suc, ◌<◌, String, ◌≡◌, refl, sym, ap, ◌∙◌, Bool, true, not, Option, some, List, [], ◌∷◌,
  arith, ◌==◌, Bool-cases, Option-cases, inl, inr, All, All-intro, All-of_Has, Has-keep, keep,
  any_of, any_of_congr, string_eq, eq_of_eqb,
}
use civicpatch_tools.Prelude.Dict.{get, put, get-put, group_by, group_by-eq_keep}
use civicpatch_tools.Projection.Facts.{Claim, Facts}
use civicpatch_tools.Projection.LiveFacts.{Answers, any_live, live, keep_live, live_facts}

-- The withdraws that point at a fact.
abbrev pub points_at : String → List Claim → List Claim
points_at fact_id ws = keep (λ w. w.entity_id == fact_id) ws

-- A fact is live if no live withdraw points at it.
abbrev pub IsLiveness : List Claim → (String → Bool) → Type 0
IsLiveness ws v = (fact_id : String) → v fact_id ≡ not (any_of (λ w. v w.id) (points_at fact_id ws))

-- Every withdraw ranks below the fact that it points at: no withdraw reaches itself.
abbrev pub IsRanked : (String → ℕ) → List Claim → Type 0
IsRanked rank ws = All (λ w. rank w.id < rank w.entity_id) ws

abbrev IsSound : (String → Bool) → Answers → Type 0
IsSound v memo = (fact_id : String) (b : Bool) → get fact_id memo ≡ some b → b ≡ v fact_id

-- A call answers by `v`, whatever sound memo it is given, and leaves a sound memo.
abbrev AnswersBy : (String → Bool) → (Answers → String → Option (Answers × Bool)) → String → Type 0
AnswersBy v call fact_id =
    (memo : Answers)
    → IsSound v memo
    → (memo' : Answers) × (call memo fact_id ≡ some (memo', v fact_id)) × IsSound v memo'

module _ (v : String → Bool) (call : Answers → String → Option (Answers × Bool)) where
  any_live_lem :
      (ws : List Claim) (memo : Answers)
      → All (λ w. AnswersBy v call w.id) ws
      → IsSound v memo
      → (memo' : Answers) × (any_live call memo ws ≡ some (memo', any_of (λ w. v w.id) ws))
        × IsSound v memo'
  unfolding any_live
  any_live_lem [] memo h s = (memo, refl, s)
  any_live_lem (w ∷ ws) memo h s =
      let (memo', e, s') = h.0 memo s in
      elim (Bool-cases (v w.id)) [
        | inl t ↦ (memo', rw (e, t), s')
        | inr f ↦
            let (memo'', e', s'') = any_live_lem ws memo' h.1 s' in (memo'', rw (e, f) e', s'')
      ]

  keep_live_lem :
      {A : Type 0} (id : A → String) (xs : List A) (memo : Answers)
      → All (λ x. AnswersBy v call (id x)) xs
      → IsSound v memo
      → (memo' : Answers) × (keep_live call id memo xs ≡ some (memo', keep (λ x. v (id x)) xs))
        × IsSound v memo'
  unfolding keep_live
  keep_live_lem id [] memo h s = (memo, refl, s)
  keep_live_lem id (x ∷ xs) memo h s =
      let (memo', e, s') = h.0 memo s in
      let (memo'', e', s'') = keep_live_lem id xs memo' h.1 s' in (memo'', rw (e, e'), s'')

nil-IsSound : (v : String → Bool) → IsSound v []
unfolding get
nil-IsSound v fact_id b h = absurd (cc)

put-IsSound :
    (v : String → Bool) (fact_id : String) (memo : Answers)
    → IsSound v memo
    → IsSound v (put fact_id (v fact_id) memo)
put-IsSound v fact_id memo s other b h = elim (Bool-cases (fact_id == other)) [
  | inl same ↦
      let e : some (v fact_id) ≡ some b = rw (get-put, same) at h in
      rw (← eq_of_eqb fact_id other same) (cc)
  | inr differs ↦ s other b (rw (get-put, differs) at h)
]

module _ (ws : List Claim) (rank : String → ℕ) (ranked : IsRanked rank ws) where
  -- What points at a fact ranks below it.
  pub below : (fact_id : String) → All (λ w. rank w.id < rank fact_id) (points_at fact_id ws)
  below fact_id = All-intro _ (points_at fact_id ws) (λ w m.
      let (listed, same) = (Has-keep (λ w. w.entity_id == fact_id) w ws).0 m in
      rw (← eq_of_eqb w.entity_id fact_id same) (All-of_Has _ ws ranked listed))

  -- Enough fuel answers each call, and by the liveness.
  live_lem :
      (v : String → Bool)
      → IsLiveness ws v
      → (fuel : ℕ) (fact_id : String) → rank fact_id < fuel
      → AnswersBy v (live (group_by (λ w. w.entity_id) [] ws) fuel) fact_id
  unfolding live
  live_lem v lv zero fact_id h memo s = absurd (omega arith)
  live_lem v lv (suc fuel) fact_id h memo s = elim (Option-cases (get fact_id memo)) [
    | inr (b, e) ↦ (memo, rw e (ap (λ c. some (memo, c)) (s fact_id b e)), s)
    | inl e ↦
        let call = live (group_by (λ w. w.entity_id) [] ws) fuel in
        let answered : All (λ w. AnswersBy v call w.id) (points_at fact_id ws) =
          All-intro _ (points_at fact_id ws) (λ w m.
            let low = All-of_Has _ (points_at fact_id ws) (below fact_id) m in
            live_lem v lv fuel w.id (omega arith)) in
        let (memo', q, s') = any_live_lem v call (points_at fact_id ws) memo answered s in
        (
          put fact_id (v fact_id) memo',
          rw (e, group_by-eq_keep (λ (w : Claim). w.entity_id) fact_id ws, q) (rw (← lv fact_id)),
          put-IsSound v fact_id memo' s',
        )
  ]

  -- Two livenesses agree on what a fact's rank is below.
  agree_below :
      (v u : String → Bool)
      → IsLiveness ws v
      → IsLiveness ws u
      → (n : ℕ) (fact_id : String) → rank fact_id < n
      → v fact_id ≡ u fact_id
  agree_below v u lv lu zero fact_id h = absurd (omega arith)
  agree_below v u lv lu (suc n) fact_id h =
      let same : All (λ w. v w.id ≡ u w.id) (points_at fact_id ws) =
        All-intro _ (points_at fact_id ws) (λ w m.
          let low = All-of_Has _ (points_at fact_id ws) (below fact_id) m in
          agree_below v u lv lu n w.id (omega arith)) in
      lv fact_id ∙ ap not (any_of_congr _ _ (points_at fact_id ws) same) ∙ sym (lu fact_id)

  pub IsLiveness-unique :
      (v u : String → Bool)
      → IsLiveness ws v
      → IsLiveness ws u
      → (fact_id : String) → v fact_id ≡ u fact_id
  IsLiveness-unique v u lv lu fact_id =
      agree_below v u lv lu (suc (rank fact_id)) fact_id (omega arith)

  -- Liveness to a given depth.
  alive : ℕ → String → Bool
  alive zero fact_id = true
  alive (suc n) fact_id = not (any_of (λ w. alive n w.id) (points_at fact_id ws))

  alive_stable :
      (n m : ℕ) (fact_id : String)
      → rank fact_id < n
      → rank fact_id < m
      → alive n fact_id ≡ alive m fact_id
  unfolding alive
  alive_stable zero m fact_id h k = absurd (omega arith)
  alive_stable (suc n) zero fact_id h k = absurd (omega arith)
  alive_stable (suc n) (suc m) fact_id h k =
      let same : All (λ w. alive n w.id ≡ alive m w.id) (points_at fact_id ws) =
        All-intro _ (points_at fact_id ws) (λ w mem.
          let low = All-of_Has _ (points_at fact_id ws) (below fact_id) mem in
          alive_stable n m w.id (omega arith) (omega arith)) in
      ap not (any_of_congr _ _ (points_at fact_id ws) same)

  pub liveness : String → Bool
  liveness fact_id = alive (suc (rank fact_id)) fact_id

  pub liveness-IsLiveness : IsLiveness ws liveness
  unfolding liveness alive
  liveness-IsLiveness fact_id =
      let same : All (λ w. alive (rank fact_id) w.id ≡ liveness w.id) (points_at fact_id ws) =
        All-intro _ (points_at fact_id ws) (λ w m.
          let low = All-of_Has _ (points_at fact_id ws) (below fact_id) m in
          alive_stable (rank fact_id) (suc (rank w.id)) w.id low (omega arith)) in
      ap not (any_of_congr _ _ (points_at fact_id ws) same)

-- What a liveness keeps.
abbrev pub kept : (String → Bool) → Facts → Facts
kept v facts = record {
  records = keep (λ r. v r.id) facts.records;
  claims = keep (λ c. v c.id) facts.claims;
  withdraws = keep (λ w. v w.id) facts.withdraws;
  reads = keep (λ r. v r.id) facts.reads;
}

module _ (facts : Facts) (rank : String → ℕ) (ranked : IsRanked rank facts.withdraws) (fuel : ℕ)
    (enough : (fact_id : String) → rank fact_id < fuel) where
  pub live_facts-eq_kept :
      (v : String → Bool)
      → IsLiveness facts.withdraws v
      → live_facts fuel facts ≡ some (kept v facts)
  unfolding live_facts
  live_facts-eq_kept v lv =
      let call = live (group_by (λ w. w.entity_id) [] facts.withdraws) fuel in
      let answers : (fact_id : String) → AnswersBy v call fact_id =
        λ fact_id. live_lem facts.withdraws rank ranked v lv fuel fact_id (enough fact_id) in
      let (m₁, e₁, s₁) =
        keep_live_lem v call (λ r. r.id) facts.records [] (All-intro _ _ (λ x m. answers x.id))
          (nil-IsSound v) in
      let (m₂, e₂, s₂) =
        keep_live_lem v call (λ r. r.id) facts.claims m₁ (All-intro _ _ (λ x m. answers x.id)) s₁ in
      let (m₃, e₃, s₃) =
        keep_live_lem v call (λ r. r.id) facts.withdraws m₂ (All-intro _ _ (λ x m. answers x.id))
          s₂ in
      let (m₄, e₄, s₄) =
        keep_live_lem v call (λ r. r.id) facts.reads m₃ (All-intro _ _ (λ x m. answers x.id)) s₃ in
      rw (e₁, e₂, e₃, e₄)

  -- If the withdraws form no cycle and the fuel is above every rank, `live_facts` returns, and keeps
  -- of each kind of fact exactly those that are live, in order; a fact is live if and only if no
  -- live withdraw points at it, and that determines which facts are live.
  pub live_facts_complete :
      (v : String → Bool) × IsLiveness facts.withdraws v
      × ((u : String → Bool)
          → IsLiveness facts.withdraws u
          → (fact_id : String) → u fact_id ≡ v fact_id)
      × (live_facts fuel facts ≡ some (kept v facts))
  live_facts_complete =
      let v = liveness facts.withdraws rank ranked in
      let lv = liveness-IsLiveness facts.withdraws rank ranked in
      (
        v,
        lv,
        λ u lu. IsLiveness-unique facts.withdraws rank ranked u v lu lv,
        live_facts-eq_kept v lv,
      )
