-- ===== src/Projection/History/Standing.antt =====
-- The rows of a history that stand, against the last roster.
use civicpatch_tools.Prelude.{
  ℕ, String, ◌≡◌, ◌≢◌, ◌↔◌, inl, inr, refl, sym, ap, ◌∙◌, not, none, some, List, [], ◌∷◌, ◌++◌,
  ◌==◌, keep, Has, Has-append, Has-map, Has-keep, last, Bool-cases, nat_eq,
}
use civicpatch_tools.Prelude.Dict.{Dict, keys, values, has_key}
use civicpatch_tools.Prelude.Sort.{Has-sorted}
use civicpatch_tools.Projection.Facts.{PostKey}
use civicpatch_tools.Projection.History.{
  Membership, Roster, MembershipRow, Pair, pair_eq, push, collapse, last_per_moment, held_in, close,
  turn, turns, row_le, membership_history,
}
use civicpatch_tools.Projection.History.Open.{
  has_key-Has, IsHeldRight, AreOpen, held_in-IsHeldRight, reopen-AreOpen, keys-reopen, IsHeldBy,
  keys-held_in,
}

last-cons : {A : Type 0} (x : A) (xs : List A) {z : A} → last xs ≡ some z → last (x ∷ xs) ≡ some z
last-cons x [] e = absurd (cc)
last-cons x (y ∷ xs) e = e

pair_of : (x y : String) (k : Pair) → x ≡ k.0 → y ≡ k.1 → (x, y) ≡ k
pair_of x y k p q = ap (λ u. (u, y)) p ∙ ap (λ v. (k.0, v)) q

last-push :
    (collapsed : List (ℕ × Roster)) (at : ℕ) (roster : Roster)
    → last (push collapsed at roster) ≡ some (at, roster)
unfolding push
last-push [] at roster = refl
last-push ((last_at, last_roster) ∷ []) at roster = elim (Bool-cases (last_at == at)) [
  | inl t ↦ rw t refl
  | inr f ↦ rw f refl
]
last-push (first ∷ second ∷ collapsed) at roster =
    last-cons first (push (second ∷ collapsed) at roster) (last-push (second ∷ collapsed) at roster)

last-collapse :
    (collapsed snapshots : List (ℕ × Roster)) (at : ℕ) (roster : Roster)
    → last snapshots ≡ some (at, roster)
    → last (collapse collapsed snapshots) ≡ some (at, roster)
unfolding collapse
last-collapse collapsed [] at roster e = absurd (cc)
last-collapse collapsed ((a, r) ∷ []) at roster e = last-push collapsed a r ∙ e
last-collapse collapsed ((a, r) ∷ second ∷ snapshots) at roster e =
    last-collapse (push collapsed a r) (second ∷ snapshots) at roster e

module _ (post_id : PostKey → String) where
  -- What was closed is closed, and what is open is open.
  abbrev IsConsistent : List MembershipRow × Dict Pair MembershipRow → Type 0
  IsConsistent state =
      ((row : MembershipRow) → Has row state.0 → row.closed_at ≢ none) × AreOpen post_id state.1

  turn-IsConsistent :
      (at : ℕ) (held : Dict Pair Membership) (state : List MembershipRow × Dict Pair MembershipRow)
      → IsHeldRight post_id held
      → IsConsistent state
      → IsConsistent (turn post_id at held state)
  unfolding turn
  turn-IsConsistent at held (closed, rows) right (were_closed, were_open) = (
    λ row h. elim ((Has-append row closed _).0 h) [
      | inl m ↦ were_closed row m
      | inr m ↦
          let (entry, n, q) =
            (Has-map (λ e. close post_id at e.1) (keep (λ e. not (has_key e.0 held)) rows)).0 m in
          λ e. cc (ap (λ r. r.closed_at) q, e)
    ],
    reopen-AreOpen post_id at (keep (λ e. has_key e.0 held) rows) held right
        (λ k row m. were_open k row ((Has-keep (λ e. has_key e.0 held) (k, row) rows).0 m).0),
  )

  keys-turn :
      (at : ℕ) (held : Dict Pair Membership) (state : List MembershipRow × Dict Pair MembershipRow)
      (k : Pair)
      → Has k (keys (turn post_id at held state).1) ↔ Has k (keys held)
  unfolding turn
  keys-turn at held (closed, rows) k = (
    λ h. elim ((keys-reopen post_id at (keep (λ e. has_key e.0 held) rows) held k).0 h) [
      | inl m ↦
          let (entry, n, q) = (Has-map (λ e. e.0) (keep (λ e. has_key e.0 held) rows)).0 m in
          rw q (has_key-Has entry.0 held ((Has-keep (λ e. has_key e.0 held) entry rows).0 n).1)
      | inr m ↦ m
    ],
    λ m. (keys-reopen post_id at (keep (λ e. has_key e.0 held) rows) held k).1 (inr m),
  )

  turns-IsConsistent :
      (state : List MembershipRow × Dict Pair MembershipRow) (snapshots : List (ℕ × Roster))
      → IsConsistent state
      → IsConsistent (turns post_id state snapshots)
  unfolding turns
  turns-IsConsistent state [] ok = ok
  turns-IsConsistent state ((at, roster) ∷ snapshots) ok =
      turns-IsConsistent (turn post_id at (held_in post_id roster) state) snapshots (
        turn-IsConsistent at (held_in post_id roster) state (held_in-IsHeldRight post_id roster) ok)

  keys-turns :
      (state : List MembershipRow × Dict Pair MembershipRow) (snapshots : List (ℕ × Roster))
      (at : ℕ) (roster : Roster) (k : Pair)
      → last snapshots ≡ some (at, roster)
      → Has k (keys (turns post_id state snapshots).1) ↔ Has k (keys (held_in post_id roster))
  unfolding turns
  keys-turns state [] at roster k e = absurd (cc)
  keys-turns state ((a, r) ∷ []) at roster k e =
      let same : r ≡ roster = cc in rw same (keys-turn a (held_in post_id roster) state k)
  keys-turns state ((a, r) ∷ second ∷ snapshots) at roster k e =
      keys-turns (turn post_id a (held_in post_id r) state) (second ∷ snapshots) at roster k e

  abbrev pub Stands : List (ℕ × Roster) → Pair → Type 0
  Stands snapshots pair =
      (row : MembershipRow) × Has row (membership_history post_id snapshots)
      × (row.closed_at ≡ none)
      × ((row.person_id, post_id row.membership.post) ≡ pair)

  -- A history leaves a row of a person and a post open if and only if the person holds the post in
  -- the last roster.
  pub membership_history-Stands :
      (snapshots : List (ℕ × Roster)) (at : ℕ) (roster : Roster)
      → last snapshots ≡ some (at, roster)
      → (pair : Pair) → Stands snapshots pair ↔ IsHeldBy post_id roster.people pair
  unfolding membership_history last_per_moment
  membership_history-Stands snapshots at roster e pair =
      let state = turns post_id ([], []) (collapse [] snapshots) in
      let (were_closed, were_open) =
        turns-IsConsistent ([], []) (collapse [] snapshots)
          ((λ row m. absurd m), (λ k row m. absurd m)) in
      let open_keys =
        keys-turns ([], []) (collapse [] snapshots) at roster pair
          (last-collapse [] snapshots at roster e) in
      (
        λ (row, m, open_row, q).
            elim ((Has-append row state.0 (values state.1)).0
              ((Has-sorted (row_le post_id) row (state.0 ++ values state.1)).0 m)) [
                | inl c ↦ absurd (were_closed row c open_row)
                | inr v ↦
                    let (entry, n, r) = (Has-map (λ e. e.1) state.1).0 v in
                    let (a, b, c) = were_open entry.0 entry.1 n in
                    (keys-held_in post_id roster pair).0 (
                      open_keys.0 (
                        (Has-map (λ e. e.0) state.1).1 (
                          entry,
                          n,
                          sym q
                              ∙ ap (λ x. (x.person_id, post_id x.membership.post)) r
                              ∙ pair_of entry.1.person_id (post_id entry.1.membership.post) entry.0
                                  a b,
                        )))
              ],
        λ h.
            let (entry, n, r) =
              (Has-map (λ e. e.0) state.1).0
                (open_keys.1 ((keys-held_in post_id roster pair).1 h)) in
            let (a, b, c) = were_open entry.0 entry.1 n in
            (
              entry.1,
              (Has-sorted (row_le post_id) entry.1 (state.0 ++ values state.1)).1 (
                  (Has-append entry.1 state.0 (values state.1)).1
                    (inr ((Has-map (λ e. e.1) state.1).1 (entry, n, refl)))),
              c,
              pair_of entry.1.person_id (post_id entry.1.membership.post) entry.0 a b ∙ sym r,
            ),
      )
