-- ===== src/Projection/Reads/Listed.antt =====
-- The reads of an organization, against the page rows and the records.
use civicpatch_tools.Prelude.{
  String, ◌≡◌, ◌↔◌, ◌⊎◌, inl, inr, refl, sym, ap, ◌∙◌, some, List, [], ◌∷◌, map, last, Has, Has-map,
  Distinct, Option-cases, string_eq,
}
use civicpatch_tools.Prelude.Dict.{Dict, keys}
use civicpatch_tools.Prelude.Sort.{Ascending, Has-sorted, sorted-Ascending, last-none}
use civicpatch_tools.Prelude.Stamp.{by_stamp-IsOrder}
use civicpatch_tools.Projection.Facts.{SourceRecord, Facts}
use civicpatch_tools.Projection.Reads.{
  Read, read_stamp, read_le, note_pages, time_by_changeset, to_read, reads_of,
}
use civicpatch_tools.Projection.Reads.Noted.{
  NamedByPage, NamedByRecord, keys-note_pages, keys-note_records, Distinct-note_pages,
  Distinct-note_records,
}

-- Of two entries of one key, without repeated keys, there is one.
one-entry :
    {K V : Type 0} (k : K) (v w : V) (d : Dict K V)
    → Distinct (keys d)
    → Has (k, v) d
    → Has (k, w) d
    → v ≡ w
one-entry k v w [] u m n = absurd m
one-entry k v w ((j, x) ∷ d) u (inl p) (inl q) = ap (λ e. e.1) p ∙ sym (ap (λ e. e.1) q)
one-entry k v w ((j, x) ∷ d) u (inl p) (inr n) =
    absurd (u.0 ((Has-map (λ e. e.0) d).1 ((k, w), n, sym (ap (λ e. e.0) p))))
one-entry k v w ((j, x) ∷ d) u (inr m) (inl q) =
    absurd (u.0 ((Has-map (λ e. e.0) d).1 ((k, v), m, sym (ap (λ e. e.0) q))))
one-entry k v w ((j, x) ∷ d) u (inr m) (inr n) = one-entry k v w d u.1 m n

module _ (organization_id : String) where
  abbrev pub WasRead : Facts → String → Type 0
  WasRead facts changeset_id =
      NamedByPage organization_id facts.reads changeset_id
      ⊎ NamedByRecord organization_id facts.records changeset_id

  pub Distinct-times : (facts : Facts) → Distinct (keys (time_by_changeset organization_id facts))
  unfolding time_by_changeset
  Distinct-times facts =
      Distinct-note_records organization_id (note_pages organization_id [] facts.reads)
        facts.records (Distinct-note_pages organization_id [] facts.reads tt)

  pub keys-times :
      (facts : Facts) (c : String)
      → Has c (keys (time_by_changeset organization_id facts)) ↔ WasRead facts c
  unfolding time_by_changeset
  keys-times facts c = (
    λ h.
        elim ((keys-note_records organization_id (note_pages organization_id [] facts.reads)
            facts.records c).0
          h) [
            | inl m ↦ elim ((keys-note_pages organization_id [] facts.reads c).0 m) [
              | inl z ↦ absurd z
              | inr p ↦ inl p
            ]
            | inr r ↦ inr r
          ],
    λ h.
        (keys-note_records organization_id (note_pages organization_id [] facts.reads) facts.records
            c).1
          (elim h [
            | inl p ↦ inl ((keys-note_pages organization_id [] facts.reads c).1 (inr p))
            | inr r ↦ inr r
          ]),
  )

  pub record ReadsListed (facts : Facts) (reads : List Read) : Type 0 where
    pub exact :
        (c : String) → ((read : Read) × Has read reads × (read.changeset_id ≡ c)) ↔ WasRead facts c
    pub once : (a b : Read) → Has a reads → Has b reads → a.changeset_id ≡ b.changeset_id → a ≡ b
    pub ascending : Ascending read_le reads

  pub Has-read :
      (facts : Facts) (read : Read)
      → Has read (reads_of organization_id facts)
        ↔ Has (read.changeset_id, read.created_at) (time_by_changeset organization_id facts)
  unfolding reads_of
  Has-read facts read = (
    λ h.
        let ((c, t), m, e) =
          (Has-map to_read (time_by_changeset organization_id facts)).0
            ((Has-sorted read_le read _).0 h) in
        rw e m,
    λ m. (Has-sorted read_le read _).1 (
        (Has-map to_read (time_by_changeset organization_id facts)).1
          ((read.changeset_id, read.created_at), m, refl)),
  )

  pub Ascending-reads : (facts : Facts) → Ascending read_le (reads_of organization_id facts)
  unfolding reads_of
  Ascending-reads facts =
      sorted-Ascending (by_stamp-IsOrder read_stamp)
        (map to_read (time_by_changeset organization_id facts))

  -- The reads of an organization are exactly the changesets that a page row or a record says read
  -- it, each once, oldest first.
  pub reads_of_lem : (facts : Facts) → ReadsListed facts (reads_of organization_id facts)
  reads_of_lem facts = record {
    exact = λ c. (
      λ (read, m, e). (keys-times facts c).0 (
          (Has-map (λ e. e.0) _).1
            ((read.changeset_id, read.created_at), (Has-read facts read).0 m, sym e)),
      λ w.
          let ((k, t), m, e) =
            (Has-map (λ e. e.0) (time_by_changeset organization_id facts)).0
              ((keys-times facts c).1 w) in
          (
            record { changeset_id = k; created_at = t },
            (Has-read facts (record { changeset_id = k; created_at = t })).1 m,
            sym e,
          ),
    );
    once = λ a b m n e.
        let same : a.created_at ≡ b.created_at =
          one-entry b.changeset_id a.created_at b.created_at
            (time_by_changeset organization_id facts) (Distinct-times facts)
            (rw e at ((Has-read facts a).0 m)) ((Has-read facts b).0 n) in
        cc;
    ascending = Ascending-reads facts;
  }

  -- Where a record names the organization there is a last read, so `[-1]` does not fail.
  pub reads_of-last :
      (facts : Facts) (r : SourceRecord)
      → Has r facts.records
      → r.organization_id ≡ organization_id
      → (read : Read) × (last (reads_of organization_id facts) ≡ some read)
  reads_of-last facts r m e = elim (Option-cases (last (reads_of organization_id facts))) [
    | inl n ↦
        let (read, k, q) = ((reads_of_lem facts).exact r.changeset_id).1 (inr (r, m, e, refl)) in
        absurd (rw (last-none (reads_of organization_id facts) n) at k)
    | inr found ↦ found
  ]
