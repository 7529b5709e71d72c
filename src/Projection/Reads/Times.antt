-- ===== src/Projection/Reads/Times.antt =====
-- Where the time of a read comes from: a page row, or, if none names the changeset, a record.
use civicpatch_tools.Prelude.{
  ℕ, String, ◌≡◌, ◌⊎◌, inl, inr, refl, sym, ap, ◌∙◌, true, none, List, [], ◌∷◌, ◌==◌, mem, Has,
  Has-map, Bool-cases, Option-cases, string_eq, eq_of_eqb, eqb_refl,
}
use civicpatch_tools.Prelude.Dict.{Dict, get, put}
use civicpatch_tools.Projection.Facts.{SourceRecord, SourcePage, Facts}
use civicpatch_tools.Projection.Reads.{note_pages, note_record, note_records, time_by_changeset}
use civicpatch_tools.Projection.Reads.Noted.{NamedByPage, keys-note_pages, keys-note_record}

Has-put :
    (k j : String) (v w : ℕ) (d : Dict String ℕ)
    → Has (j, w) (put k v d)
    → ((j ≡ k) × (w ≡ v)) ⊎ Has (j, w) d
unfolding put
Has-put k j v w [] h = elim h [ inl q ↦ inl (ap (λ e. e.0) q, ap (λ e. e.1) q) | inr m ↦ absurd m ]
Has-put k j v w ((i, x) ∷ d) h = elim (Bool-cases (i == k)) [
  | inl t ↦ elim (rw t at h) [
    | inl q ↦ inl (ap (λ e. e.0) q ∙ eq_of_eqb i k t, ap (λ e. e.1) q)
    | inr m ↦ inr (inr m)
  ]
  | inr f ↦ elim (rw f at h) [
    | inl q ↦ inr (inl q)
    | inr m ↦ elim (Has-put k j v w d m) [ inl e ↦ inl e | inr n ↦ inr (inr n) ]
  ]
]

-- A key that is looked up in vain has no entry.
absent : (k : String) (v : ℕ) (d : Dict String ℕ) → get k d ≡ none → ¬ Has (k, v) d
unfolding get
absent k v [] e h = h
absent k v ((j, x) ∷ d) e h = elim (Bool-cases (j == k)) [
  | inl t ↦ absurd (cc (rw t at e))
  | inr f ↦ elim h [
    | inl q ↦ let s : k ≡ j = ap (λ e. e.0) q in absurd (cc (rw (← s, eqb_refl k) at f))
    | inr m ↦ absent k v d (rw f at e) m
  ]
]

module _ (organization_id : String) where
  -- A page row of this organization and changeset has this time.
  abbrev pub DatedByPage : List SourcePage → String → ℕ → Type 0
  DatedByPage pages changeset_id time =
      (page : SourcePage) × Has page pages
      × (mem organization_id page.organization_ids ≡ true)
      × (page.changeset_id ≡ changeset_id)
      × (page.created_at ≡ time)

  abbrev pub DatedByRecord : List SourceRecord → String → ℕ → Type 0
  DatedByRecord records changeset_id time =
      (r : SourceRecord) × Has r records
      × (r.organization_id ≡ organization_id)
      × (r.changeset_id ≡ changeset_id)
      × (r.created_at ≡ time)

  note_pages-dated :
      (times : Dict String ℕ) (pages : List SourcePage) (c : String) (time : ℕ)
      → Has (c, time) (note_pages organization_id times pages)
      → Has (c, time) times ⊎ DatedByPage pages c time
  unfolding note_pages
  note_pages-dated times [] c time h = inl h
  note_pages-dated times (page ∷ pages) c time h =
      elim (Bool-cases (mem organization_id page.organization_ids)) [
        | inl t ↦
            elim (note_pages-dated (put page.changeset_id page.created_at times) pages c time
              (rw t at h)) [
                | inl m ↦ elim (Has-put page.changeset_id c page.created_at time times m) [
                  | inl (k, e) ↦ inr (page, inl refl, t, sym k, sym e)
                  | inr n ↦ inl n
                ]
                | inr (p, m, o, k, e) ↦ inr (p, inr m, o, k, e)
              ]
        | inr f ↦ elim (note_pages-dated times pages c time (rw f at h)) [
          | inl m ↦ inl m
          | inr (p, m, o, k, e) ↦ inr (p, inr m, o, k, e)
        ]
      ]

  note_record-dated :
      (times : Dict String ℕ) (r : SourceRecord) (c : String) (time : ℕ)
      → Has (c, time) (note_record r times (get r.changeset_id times))
      → Has (c, time) times
        ⊎ ((c ≡ r.changeset_id) × (time ≡ r.created_at) × (get r.changeset_id times ≡ none))
  unfolding note_record
  note_record-dated times r c time h = elim (Option-cases (get r.changeset_id times)) [
    | inl e ↦ elim (Has-put r.changeset_id c r.created_at time times (rw e at h)) [
      | inl (k, q) ↦ inr (k, q, e)
      | inr m ↦ inl m
    ]
    | inr (old, e) ↦ inl (rw e at h)
  ]

  -- What the loop over the records adds is of a changeset that had no time.
  note_records-dated :
      (times : Dict String ℕ) (rs : List SourceRecord) (c : String) (time : ℕ)
      → Has (c, time) (note_records organization_id times rs)
      → Has (c, time) times ⊎ (DatedByRecord rs c time × ((v : ℕ) → ¬ Has (c, v) times))
  unfolding note_records
  note_records-dated times [] c time h = inl h
  note_records-dated times (r ∷ rs) c time h =
      elim (Bool-cases (r.organization_id == organization_id)) [
        | inl t ↦
            let next = note_record r times (get r.changeset_id times) in
            elim (note_records-dated next rs c time (rw t at h)) [
              | inl m ↦ elim (note_record-dated times r c time m) [
                | inl n ↦ inl n
                | inr (k, e, gone) ↦ inr (
                  (r, inl refl, eq_of_eqb r.organization_id organization_id t, sym k, sym e),
                  λ v m. absent r.changeset_id v times gone (rw k at m),
                )
              ]
              | inr ((s, m, o, k, e), fresh) ↦ inr (
                (s, inr m, o, k, e),
                λ v m.
                    let known = (Has-map (λ e. e.0) times).1 ((c, v), m, refl) in
                    let (x, n, q) =
                      (Has-map (λ e. e.0) next).0
                        ((keys-note_record organization_id times r c).1 (inl known)) in
                    fresh x.1 (rw q n),
              )
            ]
        | inr f ↦ elim (note_records-dated times rs c time (rw f at h)) [
          | inl m ↦ inl m
          | inr ((s, m, o, k, e), fresh) ↦ inr ((s, inr m, o, k, e), fresh)
        ]
      ]

  -- The time of a read is that of a page row, or that of a record and no page row names the changeset.
  pub times-dated :
      (facts : Facts) (c : String) (time : ℕ)
      → Has (c, time) (time_by_changeset organization_id facts)
      → DatedByPage facts.reads c time
        ⊎ (DatedByRecord facts.records c time × ¬ NamedByPage organization_id facts.reads c)
  unfolding time_by_changeset
  times-dated facts c time h =
      let pages = note_pages organization_id [] facts.reads in
      elim (note_records-dated pages facts.records c time h) [
        | inl m ↦ elim (note_pages-dated [] facts.reads c time m) [
          | inl z ↦ absurd z
          | inr found ↦ inl found
        ]
        | inr (found, fresh) ↦ inr (
          found,
          λ named.
              let (e, m, q) =
                (Has-map (λ e. e.0) pages).0
                  ((keys-note_pages organization_id [] facts.reads c).1 (inr named)) in
              fresh e.1 (rw q m),
        )
      ]
