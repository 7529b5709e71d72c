-- ===== src/Projection/FieldValue/Scalar.antt =====
-- Scalar fields: claimed values and current records.
use civicpatch_tools.Prelude.{
  String, ◌≡◌, ◌↔◌, ◌⊎◌, inl, inr, refl, ap, Bool, true, false, Option, none, some, List, [], ◌∷◌,
  ◌&&◌, ◌==◌, keep, mem, string_eq, option_eq, Has, Bool-cases, Option-cases, first,
}
use mathlib.Core.List.{reverse}
use civicpatch_tools.Prelude.Sort.{sorted-Ascending, Ascending}
use civicpatch_tools.Prelude.Newest.{Has-reverse, first-none, first-reverse}
use civicpatch_tools.Projection.Facts.{Claim, ClaimKind, SourceRecord, Facts, claim_le, kind_eq}
use civicpatch_tools.Projection.FieldValue.{
  claims_for, current_records, stands, claimed, ScalarField, scalar_name, scalar_attribute,
  scalar_from_records, or_else, scalar_value,
}
use civicpatch_tools.Projection.FieldValue.Claims.{claim_le-IsOrder, Says, Has-claims_for}

scalar_from_records-some :
    (attribute : SourceRecord → Option String) (ok : String → Bool) (rs : List SourceRecord)
    {v : String}
    → scalar_from_records attribute ok rs ≡ some v
    → (r : SourceRecord) × Has r rs × (attribute r ≡ some v) × (ok v ≡ true)
unfolding scalar_from_records
scalar_from_records-some attribute ok [] h = absurd (cc)
scalar_from_records-some attribute ok (r ∷ rs) {v} h =
    let next : scalar_from_records attribute ok rs ≡ some v
        → (s : SourceRecord) × Has s (r ∷ rs) × (attribute s ≡ some v) × (ok v ≡ true) =
      λ e. let (s, m, a, t) = scalar_from_records-some attribute ok rs e in (s, inr m, a, t) in
    elim (Option-cases (attribute r)) [
      | inl e ↦ next (rw e at h)
      | inr (w, e) ↦ elim (Bool-cases (ok w)) [
        | inl t ↦
            let same : w ≡ v = cc (rw (e, t) at h) in (r, inl refl, rw (← same) e, rw (← same) t)
        | inr f ↦ next (rw (e, f) at h)
      ]
    ]

scalar_from_records-none :
    (attribute : SourceRecord → Option String) (ok : String → Bool) (rs : List SourceRecord)
    → scalar_from_records attribute ok rs ≡ none
    → (r : SourceRecord) (v : String) → Has r rs
    → attribute r ≡ some v
    → ok v ≡ false
unfolding scalar_from_records
scalar_from_records-none attribute ok [] h r v m a = absurd m
scalar_from_records-none attribute ok (s ∷ rs) h r v m a = elim (Option-cases (attribute s)) [
  | inl e ↦ elim m [
    | inl q ↦ absurd (cc (ap attribute q))
    | inr k ↦ scalar_from_records-none attribute ok rs (rw e at h) r v k a
  ]
  | inr (w, e) ↦ elim (Bool-cases (ok w)) [
    | inl t ↦ absurd (cc (rw (e, t) at h))
    | inr f ↦ elim m [
      | inl q ↦ let same : v ≡ w = cc (ap attribute q) in rw same f
      | inr k ↦ scalar_from_records-none attribute ok rs (rw (e, f) at h) r v k a
    ]
  ]
]

module _ (members : List String) (field : ScalarField) (facts : Facts) where
  abbrev accepts : List Claim
  accepts = claims_for members (scalar_name field) ClaimKind.accept facts

  abbrev rejects : List Claim
  rejects = claims_for members (scalar_name field) ClaimKind.reject facts

  abbrev pub Stands : Option String → Type 0
  Stands v = stands v accepts rejects ≡ true

  claims_for-Ascending : Ascending claim_le accepts
  unfolding claims_for
  claims_for-Ascending = sorted-Ascending claim_le-IsOrder (
      keep
        (λ c.
          mem c.entity_id members
          && (c.field_path == some (scalar_name field) && c.kind == ClaimKind.accept))
        facts.claims)

  -- The newest accept among those whose value stands.
  abbrev pub IsNewestAccept : Claim → Type 0
  IsNewestAccept c =
      Says members (scalar_name field) ClaimKind.accept facts c
      × Stands c.value
      × ((d : Claim)
          → Says members (scalar_name field) ClaimKind.accept facts d
          → Stands d.value
          → claim_le d c ≡ true)

  says : (c : Claim) → Has c accepts ↔ Says members (scalar_name field) ClaimKind.accept facts c
  says c = Has-claims_for members (scalar_name field) ClaimKind.accept facts c

  -- The three cases of a scalar field: the newest standing accept, else a current record, else none;
  -- a newest standing accept that says there is nothing leaves it to the records.
  abbrev pub ScalarCases : Type 0
  ScalarCases =
      ((c : Claim) × (v : String) × IsNewestAccept c
        × (c.value ≡ some v)
        × (scalar_value members field facts ≡ some v))
      ⊎ ((((c : Claim) × IsNewestAccept c × (c.value ≡ none))
            ⊎ ((d : Claim)
                → Says members (scalar_name field) ClaimKind.accept facts d
                → ¬ Stands d.value))
          × (((r : SourceRecord) × (v : String) × Has r (current_records members facts)
                × (scalar_attribute field r ≡ some v)
                × Stands (some v)
                × (scalar_value members field facts ≡ some v))
              ⊎ ((scalar_value members field facts ≡ none)
                  × ((r : SourceRecord) (v : String)
                      → Has r (current_records members facts)
                      → scalar_attribute field r ≡ some v
                      → ¬ Stands (some v)))))

  -- What the records say, if no accept gives a value.
  from_records :
      ((c : Claim) × IsNewestAccept c × (c.value ≡ none))
        ⊎ ((d : Claim)
            → Says members (scalar_name field) ClaimKind.accept facts d
            → ¬ Stands d.value)
      → claimed accepts rejects ≡ none
      → ScalarCases
  unfolding scalar_value or_else
  from_records unsaid e =
      let ok = λ (v : String). stands (some v) accepts rejects in
      let records = reverse (current_records members facts) in
      elim (Option-cases (scalar_from_records (scalar_attribute field) ok records)) [
        | inr (v, q) ↦
            let (r, m, a, t) = scalar_from_records-some (scalar_attribute field) ok records q in
            inr (
              unsaid,
              inl (r, v, (Has-reverse r (current_records members facts)).0 m, a, t, rw e q),
            )
        | inl q ↦ inr (
          unsaid,
          inr (
            rw e q,
            λ r v m a u. cc (
                scalar_from_records-none (scalar_attribute field) ok records q r v
                  ((Has-reverse r (current_records members facts)).1 m) a),
          ),
        )
      ]

  -- What a scalar field says. Of the accepts whose value stands, the newest wins over every record if
  -- it names a value. If there is none, or the newest says that there is nothing, a value comes from a
  -- current record and stands; and with no value, no current record's value stands.
  pub scalar_value_cases : ScalarCases
  unfolding scalar_value claimed or_else
  scalar_value_cases =
      let ok = λ (v : Option String). stands v accepts rejects in
      elim (Option-cases (first (λ c. ok c.value) (reverse accepts))) [
        | inr (c, e) ↦
            let (m, t, top) =
              first-reverse claim_le-IsOrder (λ (c : Claim). ok c.value) accepts
                claims_for-Ascending e in
            let newest : IsNewestAccept c = ((says c).0 m, t, λ d k u. top d ((says d).1 k) u) in
            elim (Option-cases c.value) [
              | inl q ↦ from_records (inl (c, newest, q)) (rw e q)
              | inr (v, q) ↦ inl (c, v, newest, q, rw (e, q) refl)
            ]
        | inl e ↦
            from_records
              (inr (λ d k u. cc (
                first-none (λ (c : Claim). ok c.value) (reverse accepts) e d
                  ((Has-reverse d accepts).1 ((says d).1 k)))))
              (rw e refl)
      ]
