-- ===== src/Projection/PersonIds/Settled.antt =====
-- What the two resolvers settle.
use civicpatch_tools.Prelude.{
  ℕ, ◌≤◌, ◌<◌, String, ◌≡◌, ◌↔◌, ◌⊎◌, inl, inr, refl, true, false, not, some, List, [], ◌∷◌, arith,
  map, last, Has, keep, ◌==◌, ◌&&◌, Has-keep, eq_of_eqb, eqb_of_eq, Option-cases, string_eq,
  option_eq, Bool-cases, ltb,
}
use civicpatch_tools.Prelude.Sort.{
  Ascending, sorted-Ascending, Has-sorted, last-Has, last-none, last-greatest,
}
use civicpatch_tools.Projection.Facts.{
  Claim, EntityType, SourceRecord, Facts, claim_le, value_id, entity_eq,
}
use civicpatch_tools.Projection.FieldValue.Claims.{claim_le-IsOrder}
use civicpatch_tools.Projection.FieldValue.{current_records}
use civicpatch_tools.Projection.PersonIds.{
  person_id_field, claims_about, value_or_own, person_id_of, with_person_ids, is_temporary, stale,
  oldest_of, drop_stale, without_stale_claims,
}

-- A claim about whom this record is about.
abbrev pub IsAbout : SourceRecord → Claim → Type 0
IsAbout r c =
    (c.entity_type ≡ EntityType.source_record)
    × (c.entity_id ≡ r.id)
    × (c.field_path ≡ some person_id_field)

-- The newest claim says whom, or, with no claim, the record's own id.
abbrev pub IsSettled : List Claim → SourceRecord → String → Type 0
IsSettled claims r person_id =
    ((c : Claim) × Has c claims
      × IsAbout r c
      × ((d : Claim) → Has d claims → IsAbout r d → claim_le d c ≡ true)
      × (person_id ≡ value_id c))
    ⊎ (((d : Claim) → Has d claims → ¬ IsAbout r d) × (person_id ≡ r.person_id))

Has-claims_about :
    (claims : List Claim) (r : SourceRecord) (c : Claim)
    → Has c (claims_about claims r) ↔ (Has c claims × IsAbout r c)
unfolding claims_about
Has-claims_about claims r c = (
  λ h.
      let (m, t) = (Has-keep _ c claims).0 ((Has-sorted claim_le c _).0 h) in
      (
        m,
        (
          eq_of_eqb c.entity_type EntityType.source_record (ground (arith, t)),
          eq_of_eqb c.entity_id r.id (ground (arith, t)),
          eq_of_eqb c.field_path (some person_id_field) (ground (arith, t)),
        ),
      ),
  λ (m, (e, i, f)). (Has-sorted claim_le c _).1 (
      (Has-keep _ c claims).1 (
        m,
        rw (
          eqb_of_eq c.entity_type EntityType.source_record e,
          eqb_of_eq c.entity_id r.id i,
          eqb_of_eq c.field_path (some person_id_field) f,
        ),
      )),
)

claims_about-Ascending :
    (claims : List Claim) (r : SourceRecord) → Ascending claim_le (claims_about claims r)
unfolding claims_about
claims_about-Ascending claims r = sorted-Ascending claim_le-IsOrder (
    keep
      (λ c.
        c.entity_type == EntityType.source_record
        && (c.entity_id == r.id && c.field_path == some person_id_field))
      claims)

person_id_of-IsSettled :
    (claims : List Claim) (r : SourceRecord) → IsSettled claims r (person_id_of claims r)
unfolding person_id_of value_or_own
person_id_of-IsSettled claims r = elim (Option-cases (last (claims_about claims r))) [
  | inl e ↦ inr (
    λ d m a. rw (last-none (claims_about claims r) e) at ((Has-claims_about claims r d).1 (m, a)),
    rw e refl,
  )
  | inr (c, e) ↦
      let (m, a) =
        (Has-claims_about claims r c).0 (last-Has claim_le-IsOrder (claims_about claims r) e) in
      inl (
        c,
        m,
        a,
        λ d n b.
            last-greatest claim_le-IsOrder (claims_about claims r) (claims_about-Ascending claims r)
              e ((Has-claims_about claims r d).1 (n, b)),
        rw e refl,
      )
]

-- `with_person_ids` changes of a record only whom it is about: the person that the newest claim about
-- that names, or, if there is no such claim, the person whom the record names itself.
pub with_person_ids_lem :
    (facts : Facts)
    → (who : SourceRecord → String) × (with_person_ids facts ≡ record facts {
      records = map (λ (r : SourceRecord). record r { person_id = who r }) facts.records;
    })
      × ((r : SourceRecord) → IsSettled facts.claims r (who r))
unfolding with_person_ids
with_person_ids_lem facts = (person_id_of facts.claims, refl, person_id_of-IsSettled facts.claims)

oldest_of_lem :
    (least : ℕ) (rs : List SourceRecord) (at : ℕ)
    → (at < oldest_of least rs)
      ↔ ((at < least) × ((r : SourceRecord) → Has r rs → at < r.created_at))
oldest_of_lem least [] at = (λ h. (h, λ r m. absurd m), λ h. h.0)
oldest_of_lem least (r ∷ rs) at = elim (Bool-cases (ltb r.created_at least)) [
  | inl t ↦ rw t (
    λ h.
        let (less, all) = (oldest_of_lem r.created_at rs at).0 h in
        (ground (arith, less), λ q m. elim m [ inl e ↦ rw e less | inr k ↦ all q k ]),
    λ (less, all). (oldest_of_lem r.created_at rs at).1 (all r (inl refl), λ q m. all q (inr m)),
  )
  | inr f ↦ rw f (
    λ h.
        let (less, all) = (oldest_of_lem least rs at).0 h in
        (less, λ q m. elim m [ inl e ↦ rw e (ground (arith, less)) | inr k ↦ all q k ]),
    λ (less, all). (oldest_of_lem least rs at).1 (less, λ q m. all q (inr m)),
  )
]

-- A claim that holds: it is about another field, or no current record is older, or there is none.
abbrev pub HoldsAgainst : List SourceRecord → Claim → Type 0
HoldsAgainst records c =
    (is_temporary c ≡ false)
    ⊎ (records ≡ [])
    ⊎ ((r : SourceRecord) × Has r records × (r.created_at ≤ c.created_at))

older_record :
    (least : ℕ) (rs : List SourceRecord) (at : ℕ)
    → oldest_of least rs ≤ at
    → (least ≤ at) ⊎ ((r : SourceRecord) × Has r rs × (r.created_at ≤ at))
older_record least [] at h = inl h
older_record least (r ∷ rs) at h = elim (Bool-cases (ltb r.created_at least)) [
  | inl t ↦ elim (older_record r.created_at rs at (rw t at h)) [
    | inl le ↦ inr (r, inl refl, le)
    | inr (q, m, le) ↦ inr (q, inr m, le)
  ]
  | inr f ↦ elim (older_record least rs at (rw f at h)) [
    | inl le ↦ inl le
    | inr (q, m, le) ↦ inr (q, inr m, le)
  ]
]

abbrev pub ClaimsKept : List String → Facts → Claim → Type 0
ClaimsKept members facts c =
    Has c (without_stale_claims members facts).claims
    ↔ (Has c facts.claims × HoldsAgainst (current_records members facts) c)

-- A stale claim is about a temporary field and older than every current record.
stale-HoldsAgainst :
    (r : SourceRecord) (rs : List SourceRecord) (c : Claim)
    → (not (stale (oldest_of r.created_at rs) c) ≡ true) ↔ HoldsAgainst (r ∷ rs) c
unfolding stale
stale-HoldsAgainst r rs c = elim (Bool-cases (is_temporary c)) [
  | inr f ↦ rw f (λ h. inl refl, λ h. refl)
  | inl t ↦ rw t (
    λ h.
        let le : oldest_of r.created_at rs ≤ c.created_at = ground (arith, h) in
        elim (older_record r.created_at rs c.created_at le) [
          | inl first ↦ inr (inr (r, inl refl, first))
          | inr (q, m, k) ↦ inr (inr (q, inr m, k))
        ],
    λ h. elim h [
      | inl f ↦ absurd (cc)
      | inr k ↦ elim k [
        | inl e ↦ absurd (cc)
        | inr (q, m, le) ↦ elim (Bool-cases (ltb c.created_at (oldest_of r.created_at rs))) [
          | inr f ↦ rw f refl
          | inl older ↦
              let (less, all) =
                (oldest_of_lem r.created_at rs c.created_at).0 (ground (arith, older)) in
              absurd (elim m [
                | inl e ↦ omega (arith, less, (rw e at le))
                | inr n ↦ let later = all q n in omega (arith, later, le)
              ])
        ]
      ]
    ],
  )
]

drop_stale-Has :
    (facts : Facts) (records : List SourceRecord) (c : Claim)
    → Has c (drop_stale facts records).claims ↔ (Has c facts.claims × HoldsAgainst records c)
unfolding drop_stale
drop_stale-Has facts [] c = (λ h. (h, inr (inl refl)), λ h. h.0)
drop_stale-Has facts (r ∷ rs) c = (
  λ h.
      let (m, k) = (Has-keep (λ c. not (stale (oldest_of r.created_at rs) c)) c facts.claims).0 h in
      (m, (stale-HoldsAgainst r rs c).0 k),
  λ (m, k).
      (Has-keep (λ c. not (stale (oldest_of r.created_at rs) c)) c facts.claims).1
        (m, (stale-HoldsAgainst r rs c).1 k),
)

-- A cluster's derivation sees exactly the claims that are not about a temporary field, or that some
-- current record of the cluster is no newer than, or all of them if it has no current record.
pub without_stale_claims-ClaimsKept :
    (members : List String) (facts : Facts) (c : Claim) → ClaimsKept members facts c
unfolding without_stale_claims
without_stale_claims-ClaimsKept members facts c =
    drop_stale-Has facts (current_records members facts) c
