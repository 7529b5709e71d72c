-- ===== src/Projection/FieldValue/Lists.antt =====
-- List fields: what current records carry, normalised, and what people added.
use civicpatch_tools.Prelude.{
  String, ◌≡◌, ◌↔◌, ◌⊎◌, inl, inr, refl, sym, ap, Bool, true, not, ◌&&◌, Option, none, some, List,
  [], ◌∷◌, ◌++◌, map, Has, Has-append, Has-map, Distinct, Distinct-snoc, mem, mem_iff, Bool-cases,
  if◌then◌else◌, string_eq,
}
use civicpatch_tools.Projection.Facts.{Claim, ClaimKind, SourceRecord, Facts}
use civicpatch_tools.Projection.FieldValue.{
  claims_for, current_records, stands, ListField, list_name, list_attribute, Normalizers,
  normalized, collect, list_value,
}
use civicpatch_tools.Projection.FieldValue.Claims.{Says, Has-claims_for}

module _ (ok : String → Bool) where
  abbrev added : List String → String → List String
  added values w = if ok w && not (mem w values) then values ++ w ∷ [] else values

  added_lem :
      (values : List String) (w : String)
      → Distinct values
      → Distinct (added values w)
        × ((v : String) → Has v (added values w) ↔ (Has v values ⊎ ((v ≡ w) × (ok w ≡ true))))
  added_lem values w d = elim (Bool-cases (ok w)) [
    | inr f ↦ rw f (d, λ v. (inl, λ h. elim h [ inl m ↦ m | inr k ↦ absurd (cc k.1) ]))
    | inl t ↦ elim (Bool-cases (mem w values)) [
      | inl old ↦
          rw (t, old)
            (d, λ v. (inl, λ h. elim h [ inl m ↦ m | inr k ↦ rw (k.0) ((mem_iff w values).0 old) ]))
      | inr new ↦
          rw (t, new)
            (
              Distinct-snoc values w d (λ m. cc (new, (mem_iff w values).1 m)),
              λ v. (
                λ h. elim ((Has-append v values (w ∷ [])).0 h) [
                  | inl m ↦ inl m
                  | inr k ↦ elim k [ inl e ↦ inr (e, refl) | inr z ↦ absurd z ]
                ],
                λ h.
                    (Has-append v values (w ∷ [])).1
                      (elim h [ inl m ↦ inl m | inr k ↦ inr (inl k.0) ]),
              ),
            )
    ]
  ]

  -- The loop's list has each value once, and holds what it held and each value that stands.
  collect_lem :
      (values : List String) (todo : List (Option String))
      → Distinct values
      → Distinct (collect ok values todo)
        × ((v : String)
            → Has v (collect ok values todo) ↔ (Has v values ⊎ (Has (some v) todo × (ok v ≡ true))))
  unfolding collect
  collect_lem values [] d = (d, λ v. (inl, λ h. elim h [ inl m ↦ m | inr k ↦ absurd k.0 ]))
  collect_lem values (none ∷ todo) d =
      let (d', iff) = collect_lem values todo d in
      (
        d',
        λ v. (
          λ h. elim ((iff v).0 h) [ inl m ↦ inl m | inr (k, t) ↦ inr (inr k, t) ],
          λ h. (iff v).1 (elim h [
            | inl m ↦ inl m
            | inr (k, t) ↦ elim k [ inl e ↦ absurd (cc) | inr j ↦ inr (j, t) ]
          ]),
        ),
      )
  collect_lem values (some w ∷ todo) d =
      let (d₁, one) = added_lem values w d in
      let (d₂, iff) = collect_lem (added values w) todo d₁ in
      (
        d₂,
        λ v. (
          λ h. elim ((iff v).0 h) [
            | inl m ↦ elim ((one v).0 m) [
              | inl k ↦ inl k
              | inr (e, t) ↦ inr (inl (ap some e), rw e t)
            ]
            | inr (k, t) ↦ inr (inr k, t)
          ],
          λ h. (iff v).1 (elim h [
            | inl m ↦ inl ((one v).1 (inl m))
            | inr (k, t) ↦ elim k [
              | inl e ↦ let same : v ≡ w = cc in inl ((one v).1 (inr (same, rw same at t)))
              | inr j ↦ inr (j, t)
            ]
          ]),
        ),
      )

module _ (normalizers : Normalizers) (members : List String) (field : ListField)
    (facts : Facts) where
  abbrev pub Listed : String → Type 0
  Listed v =
      stands (some v) (claims_for members (list_name field) ClaimKind.accept facts)
        (claims_for members (list_name field) ClaimKind.reject facts)
      ≡ true

  -- Where a value can come from: a current record, once normalised, or an accept claim.
  abbrev pub IsOffered : String → Type 0
  IsOffered v =
      ((r : SourceRecord) × Has r (current_records members facts)
        × (normalized normalizers field (list_attribute field r) ≡ some v))
      ⊎ ((c : Claim) × Says members (list_name field) ClaimKind.accept facts c × (c.value ≡ some v))

  -- A list holds each offered value that stands, once, and no other value.
  abbrev pub ListsOffered : List String → Type 0
  ListsOffered values = Distinct values × ((v : String) → Has v values ↔ (IsOffered v × Listed v))

  -- A list field has no value twice, and has a value exactly if the value stands and either a
  -- current record carries it, once normalised, or somebody accepted it.
  pub list_value_lem : ListsOffered (list_value normalizers members field facts)
  unfolding list_value
  list_value_lem =
      let accepts = claims_for members (list_name field) ClaimKind.accept facts in
      let rejects = claims_for members (list_name field) ClaimKind.reject facts in
      let of_record = λ (r : SourceRecord). normalized normalizers field (list_attribute field r) in
      let of_claim = λ (c : Claim). c.value in
      let records = current_records members facts in
      let (d, iff) =
        collect_lem (λ v. stands (some v) accepts rejects) []
          (map of_record records ++ map of_claim accepts) tt in
      (
        d,
        λ v. (
          λ h. elim ((iff v).0 h) [
            | inl m ↦ absurd m
            | inr (k, t) ↦ (
              elim ((Has-append (some v) (map of_record records) (map of_claim accepts)).0 k) [
                | inl m ↦ let (r, i, e) = (Has-map of_record records).0 m in inl (r, i, sym e)
                | inr m ↦
                    let (c, i, e) = (Has-map of_claim accepts).0 m in
                    inr (
                      c,
                      (Has-claims_for members (list_name field) ClaimKind.accept facts c).0 i,
                      cc,
                    )
              ],
              t,
            )
          ],
          λ (from, t). (iff v).1 (
              inr (
                (Has-append (some v) (map of_record records) (map of_claim accepts)).1 (elim from [
                  | inl (r, i, e) ↦ inl ((Has-map of_record records).1 (r, i, sym e))
                  | inr (c, i, e) ↦ inr (
                      (Has-map of_claim accepts).1 (
                        c,
                        (Has-claims_for members (list_name field) ClaimKind.accept facts c).1 i,
                        sym e,
                      ))
                ]),
                t,
              )),
        ),
      )
