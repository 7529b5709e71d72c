-- ===== src/Projection/FieldValue/Current.antt =====
-- Current records and the newest read of an organization.
use civicpatch_tools.Prelude.{
  String, ◌≡◌, ◌↔◌, inl, inr, refl, sym, ◌∙◌, ap, true, Option, none, some, List, [], ◌∷◌, ◌==◌,
  keep, last, mem, Has, Has-keep, mem_iff, Bool-cases, Option-cases, eq_of_eqb, eqb_of_eq,
  string_eq, option_eq,
}
use civicpatch_tools.Prelude.Dict.{Dict, get, put, get-put}
use civicpatch_tools.Prelude.Sort.{
  Ascending, sorted-Ascending, Has-sorted, last-Has, last-none, last-greatest,
}
use civicpatch_tools.Prelude.Newest.{Ascending-keep}
use civicpatch_tools.Projection.Facts.{SourceRecord, Facts, record_le}
use civicpatch_tools.Projection.FieldValue.{records_for, newest_changesets, current_records}
use civicpatch_tools.Projection.FieldValue.Claims.{record_le-IsOrder}

last-cons : {A : Type 0} (x : A) (xs : List A) {z : A} → last xs ≡ some z → last (x ∷ xs) ≡ some z
last-cons x [] h = absurd (cc)
last-cons x (y ∷ ys) h = h

-- The changeset of the last of some records, or what was there before.
last_changeset : Option SourceRecord → Option String → Option String
last_changeset none before = before
last_changeset (some r) before = some r.changeset_id

last_changeset-cons :
    (r : SourceRecord) (rs : List SourceRecord) (before : Option String)
    → last_changeset (last rs) (some r.changeset_id) ≡ last_changeset (last (r ∷ rs)) before
unfolding last_changeset
last_changeset-cons r [] before = refl
last_changeset-cons r (s ∷ rs) before = elim (Option-cases (last (s ∷ rs))) [
  | inl e ↦ absurd (cc (last-none (s ∷ rs) e))
  | inr (z, e) ↦ rw e
]

newest_changesets_lem :
    (organization_id : String) (newest : Dict String String) (rs : List SourceRecord)
    → get organization_id (newest_changesets newest rs)
      ≡ last_changeset
          (last (keep (λ r. r.organization_id == organization_id) rs))
          (get organization_id newest)
unfolding newest_changesets
newest_changesets_lem o newest [] = unfold last_changeset in refl
newest_changesets_lem o newest (r ∷ rs) =
    newest_changesets_lem o (put r.organization_id r.changeset_id newest) rs
    ∙ elim (Bool-cases (r.organization_id == o)) [
      | inl t ↦
          rw (get-put, t)
            (last_changeset-cons r (keep (λ r. r.organization_id == o) rs) (get o newest))
      | inr f ↦ rw (get-put, f)
    ]

module _ (members : List String) (facts : Facts) where
  -- A record of this cluster.
  abbrev pub IsOwn : SourceRecord → Type 0
  IsOwn r = Has r facts.records × Has r.person_id members

  Has-records_for : (r : SourceRecord) → Has r (records_for members facts) ↔ IsOwn r
  unfolding records_for
  Has-records_for r = (
    λ h.
        let (m, t) = (Has-keep _ r facts.records).0 ((Has-sorted record_le r _).0 h) in
        (m, (mem_iff r.person_id members).0 t),
    λ (m, t).
        (Has-sorted record_le r _).1
          ((Has-keep _ r facts.records).1 (m, (mem_iff r.person_id members).1 t)),
  )

  records_for-Ascending : Ascending record_le (records_for members facts)
  unfolding records_for
  records_for-Ascending =
      sorted-Ascending record_le-IsOrder (keep (λ r. mem r.person_id members) facts.records)

  -- No record of the cluster in this organization is newer.
  abbrev pub IsNewestIn : String → SourceRecord → Type 0
  IsNewestIn organization_id z =
      IsOwn z
      × (z.organization_id ≡ organization_id)
      × ((y : SourceRecord) → IsOwn y → y.organization_id ≡ organization_id → record_le y z ≡ true)

  abbrev in_organization : String → List SourceRecord
  in_organization o = keep (λ r. r.organization_id == o) (records_for members facts)

  Has-in_organization :
      (o : String) (y : SourceRecord) → IsOwn y → y.organization_id ≡ o → Has y (in_organization o)
  Has-in_organization o y own e =
      (Has-keep _ y (records_for members facts)).1
        ((Has-records_for y).1 own, eqb_of_eq y.organization_id o e)

  last-IsNewestIn :
      (o : String) {z : SourceRecord} → last (in_organization o) ≡ some z → IsNewestIn o z
  last-IsNewestIn o {z} e =
      let (m, t) =
        (Has-keep _ z (records_for members facts)).0
          (last-Has record_le-IsOrder (in_organization o) e) in
      (
        (Has-records_for z).0 m,
        eq_of_eqb z.organization_id o t,
        λ y own same.
            last-greatest record_le-IsOrder (in_organization o)
              (Ascending-keep record_le _ (records_for members facts) records_for-Ascending) e
              (Has-in_organization o y own same),
      )

  -- The newest record of an organization, and which of the cluster's records there are current.
  abbrev pub HasNewestRead : String → Type 0
  HasNewestRead organization_id =
      (z : SourceRecord) × IsNewestIn organization_id z
      × ((y : SourceRecord)
          → IsOwn y
          → y.organization_id ≡ organization_id
          → Has y (current_records members facts) ↔ (y.changeset_id ≡ z.changeset_id))

  -- Of the records that a cluster has in one organization, those of the changeset of the newest one
  -- are current and no others are.
  pub current_records_lem : (r : SourceRecord) → IsOwn r → HasNewestRead r.organization_id
  unfolding current_records last_changeset
  current_records_lem r own =
      let o = r.organization_id in
      elim (Option-cases (last (in_organization o))) [
        | inl e ↦
            absurd (rw (last-none (in_organization o) e) at (Has-in_organization o r own refl))
        | inr (z, e) ↦ (
          z,
          last-IsNewestIn o e,
          λ y own_y same.
              let found : get y.organization_id (newest_changesets [] (records_for members facts))
                  ≡ some z.changeset_id =
                rw same (newest_changesets_lem o [] (records_for members facts) ∙ rw e) in
              (
                λ h.
                    let (m, t) = (Has-keep _ y (records_for members facts)).0 h in
                    cc (eq_of_eqb (some y.changeset_id) _ t, found),
                λ q. (Has-keep _ y (records_for members facts)).1 (
                  (Has-records_for y).1 own_y,
                  eqb_of_eq (some y.changeset_id) _ (ap some q ∙ sym found),
                ),
              ),
        )
      ]

  pub current_records-IsOwn : (y : SourceRecord) → Has y (current_records members facts) → IsOwn y
  unfolding current_records
  current_records-IsOwn y h =
      (Has-records_for y).0 ((Has-keep _ y (records_for members facts)).0 h).0
