-- ===== src/Projection/History/Open.antt =====
-- The pairs that a roster holds, and the rows that are open.
use civicpatch_tools.Prelude.{
  ℕ, String, ◌≡◌, ◌↔◌, ◌⊎◌, inl, inr, refl, sym, ap, ◌∙◌, true, none, List, [], ◌∷◌, ◌==◌, Has,
  Has-map, Bool-cases, Option-cases, string_eq, HasEq, eq_of_eqb,
}
use civicpatch_tools.Prelude.Dict.{Dict, keys, get, put, has_key, Has-keys-put, Has-keys_of_get}
use civicpatch_tools.Projection.Facts.{PostKey}
use civicpatch_tools.Projection.History.{
  Membership, Person, Roster, MembershipRow, Pair, pair_eq, hold, hold_all, held_in, opened, reopen,
}

-- An entry after an assignment is the new one or an old one.
Has-put :
    {K V : Type 0} ⦃e : HasEq K⦄ (k : K) (v : V) (d : Dict K V) {entry : K × V}
    → Has entry (put k v d)
    → (entry ≡ (k, v)) ⊎ Has entry d
unfolding put
Has-put k v [] (inl q) = inl q
Has-put k v [] (inr z) = absurd z
Has-put ⦃e⦄ k v ((j, w) ∷ d) h = elim (Bool-cases (j == k)) [
  | inl t ↦ elim (rw t at h) [
    | inl q ↦ inl (q ∙ ap (λ x. (x, v)) (eq_of_eqb j k t))
    | inr m ↦ inr (inr m)
  ]
  | inr f ↦ elim (rw f at h) [
    | inl q ↦ inr (inl q)
    | inr m ↦ elim (Has-put k v d m) [ inl q ↦ inl q | inr n ↦ inr (inr n) ]
  ]
]

pub has_key-Has :
    {K V : Type 0} ⦃e : HasEq K⦄ (k : K) (d : Dict K V) → has_key k d ≡ true → Has k (keys d)
has_key-Has k d h = elim (Option-cases (get k d)) [
  | inl e ↦ absurd (cc (rw (has_key, e) at h))
  | inr (v, e) ↦ (Has-map (λ x. x.0) d).1 ((k, v), Has-keys_of_get k v d e, refl)
]

module _ (post_id : PostKey → String) where
  -- A membership stands under its own post.
  abbrev pub IsHeldRight : Dict Pair Membership → Type 0
  IsHeldRight held = (k : Pair) (m : Membership) → Has (k, m) held → post_id m.post ≡ k.1

  hold-IsHeldRight :
      (person_id : String) (held : Dict Pair Membership) (ms : List Membership)
      → IsHeldRight held
      → IsHeldRight (hold post_id person_id held ms)
  unfolding hold
  hold-IsHeldRight person_id held [] right = right
  hold-IsHeldRight person_id held (m ∷ ms) right =
      hold-IsHeldRight person_id (put (person_id, post_id m.post) m held) ms (λ k n h.
        elim (Has-put (person_id, post_id m.post) m held h) [
          | inl q ↦ ap (λ e. post_id e.1.post) q ∙ sym (ap (λ e. e.0.1) q)
          | inr old ↦ right k n old
        ])

  hold_all-IsHeldRight :
      (held : Dict Pair Membership) (people : List Person)
      → IsHeldRight held
      → IsHeldRight (hold_all post_id held people)
  unfolding hold_all
  hold_all-IsHeldRight held [] right = right
  hold_all-IsHeldRight held (p ∷ people) right =
      hold_all-IsHeldRight (hold post_id p.id held p.memberships) people
        (hold-IsHeldRight p.id held p.memberships right)

  pub held_in-IsHeldRight : (roster : Roster) → IsHeldRight (held_in post_id roster)
  unfolding held_in
  held_in-IsHeldRight roster = hold_all-IsHeldRight [] roster.people (λ k m h. absurd h)

  -- A row stands under its own pair, and is open.
  abbrev pub AreOpen : Dict Pair MembershipRow → Type 0
  AreOpen rows =
      (k : Pair) (row : MembershipRow)
      → Has (k, row) rows
      → (row.person_id ≡ k.0) × (post_id row.membership.post ≡ k.1) × (row.closed_at ≡ none)

  pub reopen-AreOpen :
      (at : ℕ) (rows : Dict Pair MembershipRow) (held : Dict Pair Membership)
      → IsHeldRight held
      → AreOpen rows
      → AreOpen (reopen post_id at rows held)
  unfolding reopen
  reopen-AreOpen at rows [] right open_rows = open_rows
  reopen-AreOpen at rows ((pair, m) ∷ held) right open_rows =
      let row : MembershipRow = record {
        person_id = pair.0;
        membership = m;
        opened_at = opened post_id at (get pair rows);
        closed_at = none;
      } in
      reopen-AreOpen at (put pair row rows) held (λ k n h. right k n (inr h))
        (λ k r h. elim (Has-put pair row rows h) [
          | inl q ↦ (
            ap (λ e. e.1.person_id) q ∙ sym (ap (λ e. e.0.0) q),
            ap (λ e. post_id e.1.membership.post) q
                ∙ right pair m (inl refl)
                ∙ sym (ap (λ e. e.0.1) q),
            ap (λ e. e.1.closed_at) q,
          )
          | inr old ↦ open_rows k r old
        ])

  pub keys-reopen :
      (at : ℕ) (rows : Dict Pair MembershipRow) (held : Dict Pair Membership) (k : Pair)
      → Has k (keys (reopen post_id at rows held)) ↔ (Has k (keys rows) ⊎ Has k (keys held))
  unfolding reopen
  keys-reopen at rows [] k = (λ h. inl h, λ h. elim h [ inl m ↦ m | inr z ↦ absurd z ])
  keys-reopen at rows ((pair, m) ∷ held) k =
      let row : MembershipRow = record {
        person_id = pair.0;
        membership = m;
        opened_at = opened post_id at (get pair rows);
        closed_at = none;
      } in
      let ih = keys-reopen at (put pair row rows) held k in
      (
        λ h. elim (ih.0 h) [
          | inl n ↦ elim ((Has-keys-put pair k row rows).0 n) [
            | inl q ↦ inr (inl q)
            | inr o ↦ inl o
          ]
          | inr n ↦ inr (inr n)
        ],
        λ h. ih.1 (elim h [
          | inl o ↦ inl ((Has-keys-put pair k row rows).1 (inr o))
          | inr n ↦ elim n [
            | inl q ↦ inl ((Has-keys-put pair k row rows).1 (inl q))
            | inr o ↦ inr o
          ]
        ]),
      )

  keys-hold :
      (person_id : String) (held : Dict Pair Membership) (ms : List Membership) (k : Pair)
      → Has k (keys (hold post_id person_id held ms))
        ↔ (Has k (keys held) ⊎ ((m : Membership) × Has m ms × (k ≡ (person_id, post_id m.post))))
  unfolding hold
  keys-hold person_id held [] k = (λ h. inl h, λ h. elim h [ inl m ↦ m | inr (m, z, q) ↦ absurd z ])
  keys-hold person_id held (m ∷ ms) k =
      let ih = keys-hold person_id (put (person_id, post_id m.post) m held) ms k in
      (
        λ h. elim (ih.0 h) [
          | inl n ↦ elim ((Has-keys-put (person_id, post_id m.post) k m held).0 n) [
            | inl q ↦ inr (m, inl refl, q)
            | inr o ↦ inl o
          ]
          | inr (n, o, q) ↦ inr (n, inr o, q)
        ],
        λ h. ih.1 (elim h [
          | inl o ↦ inl ((Has-keys-put (person_id, post_id m.post) k m held).1 (inr o))
          | inr (n, o, q) ↦ elim o [
            | inl e ↦ inl (
                (Has-keys-put (person_id, post_id m.post) k m held).1
                  (inl (q ∙ ap (λ x. (person_id, post_id x.post)) e)))
            | inr r ↦ inr (n, r, q)
          ]
        ]),
      )

  -- Some person of the list has a membership in the post.
  abbrev pub IsHeldBy : List Person → Pair → Type 0
  IsHeldBy people k =
      (p : Person) × Has p people
      × ((m : Membership) × Has m p.memberships × (k ≡ (p.id, post_id m.post)))

  keys-hold_all :
      (held : Dict Pair Membership) (people : List Person) (k : Pair)
      → Has k (keys (hold_all post_id held people)) ↔ (Has k (keys held) ⊎ IsHeldBy people k)
  unfolding hold_all
  keys-hold_all held [] k = (λ h. inl h, λ h. elim h [ inl m ↦ m | inr (p, z, q) ↦ absurd z ])
  keys-hold_all held (p ∷ people) k =
      let ih = keys-hold_all (hold post_id p.id held p.memberships) people k in
      let own = keys-hold p.id held p.memberships k in
      (
        λ h. elim (ih.0 h) [
          | inl n ↦ elim (own.0 n) [ inl o ↦ inl o | inr m ↦ inr (p, inl refl, m) ]
          | inr (q, n, m) ↦ inr (q, inr n, m)
        ],
        λ h. ih.1 (elim h [
          | inl o ↦ inl (own.1 (inl o))
          | inr (q, n, m) ↦ elim n [ inl e ↦ inl (own.1 (inr (rw e at m))) | inr r ↦ inr (q, r, m) ]
        ]),
      )

  pub keys-held_in :
      (roster : Roster) (k : Pair)
      → Has k (keys (held_in post_id roster)) ↔ IsHeldBy roster.people k
  unfolding held_in
  keys-held_in roster k = (
    λ h. elim ((keys-hold_all [] roster.people k).0 h) [ inl z ↦ absurd z | inr m ↦ m ],
    λ m. (keys-hold_all [] roster.people k).1 (inr m),
  )
