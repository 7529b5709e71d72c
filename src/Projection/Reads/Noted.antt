-- ===== src/Projection/Reads/Noted.antt =====
-- The loops over the page rows and the records, and the changesets that they note.
use civicpatch_tools.Prelude.{
  ℕ, String, ◌≡◌, ◌↔◌, ◌⊎◌, inl, inr, refl, sym, ap, ◌∙◌, true, Option, none, some, List, [], ◌∷◌,
  ◌==◌, mem, Has, Has-map, Distinct, Bool-cases, Option-cases, string_eq, eq_of_eqb, ne_of_eqb,
}
use civicpatch_tools.Prelude.Dict.{
  Dict, keys, get, put, Has-keys_of_get, Has-keys-put, Distinct-keys-put,
}
use civicpatch_tools.Projection.Facts.{SourceRecord, SourcePage}
use civicpatch_tools.Projection.Reads.{note_pages, note_record, note_records}

module _ (organization_id : String) where
  abbrev pub NamedByPage : List SourcePage → String → Type 0
  NamedByPage pages changeset_id =
      (page : SourcePage) × Has page pages
      × (mem organization_id page.organization_ids ≡ true)
      × (page.changeset_id ≡ changeset_id)

  abbrev pub NamedByRecord : List SourceRecord → String → Type 0
  NamedByRecord records changeset_id =
      (r : SourceRecord) × Has r records
      × (r.organization_id ≡ organization_id)
      × (r.changeset_id ≡ changeset_id)

  pub keys-note_pages :
      (times : Dict String ℕ) (pages : List SourcePage) (c : String)
      → Has c (keys (note_pages organization_id times pages))
        ↔ (Has c (keys times) ⊎ NamedByPage pages c)
  unfolding note_pages
  keys-note_pages times [] c = (λ h. inl h, λ h. elim h [ inl m ↦ m | inr (p, m, e, q) ↦ absurd m ])
  keys-note_pages times (page ∷ pages) c =
      elim (Bool-cases (mem organization_id page.organization_ids)) [
        | inl t ↦ rw t (
          λ h. elim ((keys-note_pages (put page.changeset_id page.created_at times) pages c).0 h) [
            | inl m ↦ elim ((Has-keys-put page.changeset_id c page.created_at times).0 m) [
              | inl q ↦ inr (page, inl refl, t, sym q)
              | inr k ↦ inl k
            ]
            | inr (p, m, e, q) ↦ inr (p, inr m, e, q)
          ],
          λ h. (keys-note_pages (put page.changeset_id page.created_at times) pages c).1 (elim h [
            | inl m ↦ inl ((Has-keys-put page.changeset_id c page.created_at times).1 (inr m))
            | inr (p, m, e, q) ↦ elim m [
              | inl i ↦ inl (
                  (Has-keys-put page.changeset_id c page.created_at times).1
                    (inl (sym q ∙ ap (λ x. x.changeset_id) i)))
              | inr k ↦ inr (p, k, e, q)
            ]
          ]),
        )
        | inr f ↦ rw f (
          λ h. elim ((keys-note_pages times pages c).0 h) [
            | inl m ↦ inl m
            | inr (p, m, e, q) ↦ inr (p, inr m, e, q)
          ],
          λ h. (keys-note_pages times pages c).1 (elim h [
            | inl m ↦ inl m
            | inr (p, m, e, q) ↦ elim m [ inl i ↦ absurd (cc) | inr k ↦ inr (p, k, e, q) ]
          ]),
        )
      ]

  pub keys-note_record :
      (times : Dict String ℕ) (r : SourceRecord) (c : String)
      → Has c (keys (note_record r times (get r.changeset_id times)))
        ↔ (Has c (keys times) ⊎ (r.changeset_id ≡ c))
  unfolding note_record
  keys-note_record times r c = elim (Option-cases (get r.changeset_id times)) [
    | inl e ↦ rw e (
      λ h. elim ((Has-keys-put r.changeset_id c r.created_at times).0 h) [
        | inl q ↦ inr (sym q)
        | inr k ↦ inl k
      ],
      λ h.
          (Has-keys-put r.changeset_id c r.created_at times).1
            (elim h [ inl k ↦ inr k | inr q ↦ inl (sym q) ]),
    )
    | inr (time, e) ↦ rw e (
      λ h. inl h,
      λ h. elim h [
        | inl k ↦ k
        | inr q ↦
            (Has-map (λ e. e.0) times).1
              ((r.changeset_id, time), Has-keys_of_get r.changeset_id time times e, sym q)
      ],
    )
  ]

  pub keys-note_records :
      (times : Dict String ℕ) (rs : List SourceRecord) (c : String)
      → Has c (keys (note_records organization_id times rs))
        ↔ (Has c (keys times) ⊎ NamedByRecord rs c)
  unfolding note_records
  keys-note_records times [] c =
      (λ h. inl h, λ h. elim h [ inl m ↦ m | inr (p, m, e, q) ↦ absurd m ])
  keys-note_records times (r ∷ rs) c = elim (Bool-cases (r.organization_id == organization_id)) [
    | inl t ↦ rw t (
      λ h. elim ((keys-note_records (note_record r times (get r.changeset_id times)) rs c).0 h) [
        | inl m ↦ elim ((keys-note_record times r c).0 m) [
          | inl k ↦ inl k
          | inr q ↦ inr (r, inl refl, eq_of_eqb r.organization_id organization_id t, q)
        ]
        | inr (p, m, e, q) ↦ inr (p, inr m, e, q)
      ],
      λ h. (keys-note_records (note_record r times (get r.changeset_id times)) rs c).1 (elim h [
        | inl m ↦ inl ((keys-note_record times r c).1 (inl m))
        | inr (p, m, e, q) ↦ elim m [
          | inl i ↦
              inl ((keys-note_record times r c).1 (inr (ap (λ x. x.changeset_id) (sym i) ∙ q)))
          | inr k ↦ inr (p, k, e, q)
        ]
      ]),
    )
    | inr f ↦ rw f (
      λ h. elim ((keys-note_records times rs c).0 h) [
        | inl m ↦ inl m
        | inr (p, m, e, q) ↦ inr (p, inr m, e, q)
      ],
      λ h. (keys-note_records times rs c).1 (elim h [
        | inl m ↦ inl m
        | inr (p, m, e, q) ↦ elim m [
          | inl i ↦ absurd (
              ne_of_eqb r.organization_id organization_id f
                (ap (λ x. x.organization_id) (sym i) ∙ e))
          | inr k ↦ inr (p, k, e, q)
        ]
      ]),
    )
  ]

  pub Distinct-note_pages :
      (times : Dict String ℕ) (pages : List SourcePage)
      → Distinct (keys times)
      → Distinct (keys (note_pages organization_id times pages))
  unfolding note_pages
  Distinct-note_pages times [] d = d
  Distinct-note_pages times (page ∷ pages) d =
      elim (Bool-cases (mem organization_id page.organization_ids)) [
        | inl t ↦ rw t (
            Distinct-note_pages (put page.changeset_id page.created_at times) pages
              (Distinct-keys-put page.changeset_id page.created_at times d))
        | inr f ↦ rw f (Distinct-note_pages times pages d)
      ]

  Distinct-note_record :
      (times : Dict String ℕ) (r : SourceRecord) (time : Option ℕ)
      → Distinct (keys times)
      → Distinct (keys (note_record r times time))
  unfolding note_record
  Distinct-note_record times r none d = Distinct-keys-put r.changeset_id r.created_at times d
  Distinct-note_record times r (some time) d = d

  pub Distinct-note_records :
      (times : Dict String ℕ) (rs : List SourceRecord)
      → Distinct (keys times)
      → Distinct (keys (note_records organization_id times rs))
  unfolding note_records
  Distinct-note_records times [] d = d
  Distinct-note_records times (r ∷ rs) d =
      elim (Bool-cases (r.organization_id == organization_id)) [
        | inl t ↦ rw t (
            Distinct-note_records (note_record r times (get r.changeset_id times)) rs
              (Distinct-note_record times r (get r.changeset_id times) d))
        | inr f ↦ rw f (Distinct-note_records times rs d)
      ]
