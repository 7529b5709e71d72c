-- ===== src/Projection/Partial/Seats.antt =====
-- What `with_inherited_blanks` makes of each record: it is filled from the record before it in its seat,
-- the records of one person in one organization, oldest first.
use civicpatch_tools.Prelude.{
  ◌≡◌, inl, inr, refl, sym, ap, ◌∙◌, true, false, some, List, [], ◌∷◌, ◌++◌, ◌==◌, map, keep,
  any_of, any_of-Has, Has, Has-append, Has-map, Has-keep, Distinct, Bool-cases, eq_of_eqb, eqb_refl,
  string_eq,
}
use civicpatch_tools.Prelude.Equality.{prod_eq}
use civicpatch_tools.Prelude.Dict.{get, values, group_by}
use civicpatch_tools.Prelude.Groups.{Has-values-groups}
use civicpatch_tools.Prelude.Same.{eq_of_image, Distinct-map-keep, Distinct-of_map}
use civicpatch_tools.Prelude.Sort.{sorted, Has-sorted, Distinct-sorted}
use civicpatch_tools.Projection.Facts.{SourceRecord, Facts, record_le}
use civicpatch_tools.Projection.Roles.{or_default}
use civicpatch_tools.Projection.Partial.{
  nothing_carried, stated, carried_into, fill, rewrite_groups, seat_key, with_inherited_blanks,
}
use civicpatch_tools.Projection.Partial.Filled.{
  map_own, map_congr, fill_partial, fill_nothing, filled_in, filled_in_whole, filled_in_next,
  get-rewrite_group, get-rewrite_groups, KnownById,
}

-- The records of a record's seat, oldest first.
abbrev pub seat : List SourceRecord → SourceRecord → List SourceRecord
seat records r = sorted record_le (keep (λ x. seat_key x == seat_key r) records)

-- Of a record: whole, the first of its seat, or after another there.
abbrev pub IsFilled : Facts → (SourceRecord → SourceRecord) → SourceRecord → Type 0
IsFilled facts fill_in r =
    (r.is_partial ≡ false → fill_in r ≡ r)
    × ((after : List SourceRecord) → seat facts.records r ≡ r ∷ after → fill_in r ≡ r)
    × ((before after : List SourceRecord) (p : SourceRecord)
        → seat facts.records r ≡ before ++ p ∷ r ∷ after
        → r.is_partial ≡ true
        → fill_in r ≡ carried_into r (stated (fill_in p)))

module _ (facts : Facts) (once : Distinct (map (λ r. r.id) facts.records)) where
  seat-KnownById : (r : SourceRecord) → KnownById (seat facts.records r)
  seat-KnownById r =
      let own = keep (λ x. seat_key x == seat_key r) facts.records in
      let ids = Distinct-map-keep (λ (r : SourceRecord). r.id) _ facts.records once in
      (
        Distinct-sorted record_le own (Distinct-of_map (λ (r : SourceRecord). r.id) own ids),
        λ a b m n e.
            eq_of_image (λ (r : SourceRecord). r.id) own a b ids ((Has-sorted record_le a own).0 m)
              ((Has-sorted record_le b own).0 n) e,
      )

  Has-seat : (r : SourceRecord) → Has r facts.records → Has r (seat facts.records r)
  Has-seat r m =
      (Has-sorted record_le r _).1
        ((Has-keep (λ x. seat_key x == seat_key r) r facts.records).1 (m, eqb_refl (seat_key r)))

  -- What a record becomes.
  abbrev filled : SourceRecord → SourceRecord
  filled r = filled_in nothing_carried (seat facts.records r) r

  -- A group that writes at a record's id is that record's seat.
  group_of_record :
      (r : SourceRecord) (g : List SourceRecord)
      → Has r facts.records
      → Has g (values (group_by seat_key [] facts.records))
      → Has r.id (map (λ r. r.id) g)
      → g ≡ keep (λ x. seat_key x == seat_key r) facts.records
  group_of_record r g m n h =
      let (x, j, q) = (Has-values-groups seat_key g facts.records).0 n in
      let (y, o, e) = (Has-map (λ (r : SourceRecord). r.id) g).0 h in
      let (i, t) = (Has-keep (λ y. seat_key y == seat_key x) y facts.records).0 (rw q at o) in
      let same = eq_of_image (λ (r : SourceRecord). r.id) facts.records r y once m i e in
      let k : seat_key x ≡ seat_key r =
        sym (eq_of_eqb (seat_key y) (seat_key x) t) ∙ ap seat_key (sym same) in
      q ∙ ap (λ k. keep (λ y. seat_key y == k) facts.records) k

  get-rewritten :
      (r : SourceRecord)
      → Has r facts.records
      → get r.id (rewrite_groups [] (values (group_by seat_key [] facts.records))) ≡ some (filled r)
  get-rewritten r m =
      get-rewrite_groups r.id (filled r) (values (group_by seat_key [] facts.records)) []
        (λ g d n h. rw (group_of_record r g m n h) (
          get-rewrite_group nothing_carried (seat facts.records r) r d (seat-KnownById r)
            (Has-seat r m)))
        (inr (
          keep (λ x. seat_key x == seat_key r) facts.records,
          (Has-values-groups seat_key _ facts.records).1 (r, m, refl),
          (Has-map (λ (r : SourceRecord). r.id) _).1
              (r, (Has-sorted record_le r _).0 (Has-seat r m), refl),
        ))

  filled_whole : (r : SourceRecord) → Has r facts.records → r.is_partial ≡ false → filled r ≡ r
  filled_whole r m e =
      filled_in_whole nothing_carried (seat facts.records r) r (seat-KnownById r) (Has-seat r m) e

  filled_first :
      (r : SourceRecord) (after : List SourceRecord)
      → seat facts.records r ≡ r ∷ after
      → filled r ≡ r
  unfolding filled_in
  filled_first r after e =
      ap (λ gs. filled_in nothing_carried gs r) e ∙ rw (eqb_refl r.id) (fill_nothing r)

  -- The record before it is of the same seat.
  seat_before :
      (before after : List SourceRecord) (p r : SourceRecord)
      → seat facts.records r ≡ before ++ p ∷ r ∷ after
      → seat facts.records p ≡ before ++ p ∷ r ∷ after
  seat_before before after p r e =
      let m : Has p (seat facts.records r) = rw e ((Has-append p before _).1 (inr (inl refl))) in
      let (n, t) =
        (Has-keep (λ x. seat_key x == seat_key r) p facts.records).0
          ((Has-sorted record_le p _).0 m) in
      ap (λ k. sorted record_le (keep (λ x. seat_key x == k) facts.records))
        (eq_of_eqb (seat_key p) (seat_key r) t)
      ∙ e

  filled_later :
      (before after : List SourceRecord) (p r : SourceRecord)
      → seat facts.records r ≡ before ++ p ∷ r ∷ after
      → r.is_partial ≡ true
      → filled r ≡ carried_into r (stated (filled p))
  filled_later before after p r e partial =
      ap (λ gs. filled_in nothing_carried gs r) e
      ∙ filled_in_next nothing_carried before after p r (rw e at (seat-KnownById r))
      ∙ ap (λ gs. fill (stated (filled_in nothing_carried gs p)) r)
          (sym (seat_before before after p r e))
      ∙ fill_partial (stated (filled p)) r partial

  filled-IsFilled : (r : SourceRecord) → Has r facts.records → IsFilled facts filled r
  filled-IsFilled r m =
      (filled_whole r m, filled_first r, λ before after p. filled_later before after p r)

  none_partial :
      any_of (λ r. r.is_partial) facts.records ≡ false → map filled facts.records ≡ facts.records
  none_partial f = map_own filled facts.records (λ r m.
      filled_whole r m (elim (Bool-cases r.is_partial) [
        | inl t ↦ let u = any_of-Has (λ r. r.is_partial) facts.records r m t in absurd (cc)
        | inr w ↦ w
      ]))

  -- If no id stands twice, `with_inherited_blanks` replaces each record and nothing else. A record
  -- that is not partial, or is the first of its person in its organization, stays as it is; one that
  -- is partial and follows another there has its blank cells filled with what that one states, once
  -- filled itself.
  pub with_inherited_blanks_lem :
      (fill_in : SourceRecord → SourceRecord) × (with_inherited_blanks facts
        ≡ record facts { records = map fill_in facts.records })
      × ((r : SourceRecord) → Has r facts.records → IsFilled facts fill_in r)
  unfolding with_inherited_blanks
  with_inherited_blanks_lem = (
    filled,
    elim (Bool-cases (any_of (λ r. r.is_partial) facts.records)) [
      | inl t ↦ rw t (
          ap (λ rs. record facts { records = rs })
            (map_congr _ filled facts.records (λ r m. ap (or_default r) (get-rewritten r m))))
      | inr f ↦ rw (f, none_partial f)
    ],
    filled-IsFilled,
  )
