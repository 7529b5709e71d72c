-- ===== src/Projection/AsOf/Cuts.antt =====
-- The moments of a jurisdiction's history, in order.
use civicpatch_tools.Prelude.{
  ℕ, ◌≤◌, String, ◌≡◌, ◌↔◌, ◌⊎◌, inl, inr, refl, ap, Bool, true, Option, none, some, List, [], ◌∷◌,
  arith, map, Has, keep, leb, nat_eq, string_eq, Bool-cases, Distinct, last, ◌==◌, ◌&&◌, option_eq,
  eq_of_eqb,
}
use civicpatch_tools.Prelude.Dict.{Dict, keys, get, Has-keys-put, Distinct-keys-put}
use civicpatch_tools.Prelude.Sort.{
  IsOrder, Ascending, sorted, sorted-Ascending, Has-sorted, Distinct-sorted,
}
use civicpatch_tools.Projection.Facts.{Claim, Facts, SourceRecord, EntityType, entity_eq, claim_le}
use civicpatch_tools.Projection.CanonicalIds.{same_as_field, canonical_ids}
use civicpatch_tools.Projection.Clusters.{same_as_claims}
use civicpatch_tools.Projection.PersonIds.{
  person_id_field, claims_about, value_or_own, person_id_of, settle, with_person_ids,
}
use civicpatch_tools.Projection.AsOf.{
  get_or, max, min, lower, earliest_of, stamped, observed_at, snapshot_times, facts_as_of, counts,
  claim_counts, is_identity_field,
}

abbrev pub StampsFrom : ℕ → List (ℕ × ℕ) → Type 0
StampsFrom least [] = Unit
StampsFrom least ((cut, stamp) ∷ times) = (least ≤ stamp) × StampsFrom stamp times

stamped-StampsFrom :
    (earliest : Dict ℕ ℕ) (previous : ℕ) (cuts : List ℕ)
    → StampsFrom previous (stamped earliest (some previous) cuts)
unfolding stamped
stamped-StampsFrom earliest previous [] = tt
stamped-StampsFrom earliest previous (cut ∷ cuts) =
    (ground arith, stamped-StampsFrom earliest (max previous (get_or cut (get cut earliest))) cuts)

cuts-stamped :
    (earliest : Dict ℕ ℕ) (previous : Option ℕ) (cuts : List ℕ)
    → map (λ t. t.0) (stamped earliest previous cuts) ≡ cuts
unfolding stamped
cuts-stamped earliest previous [] = refl
cuts-stamped earliest previous (cut ∷ cuts) =
    ap (λ rest. cut ∷ rest)
      (cuts-stamped earliest
        (some
          (max (get_or (get_or cut (get cut earliest)) previous) (get_or cut (get cut earliest))))
        cuts)

keys-earliest_of :
    (observed : Dict String ℕ) (earliest : Dict ℕ ℕ) (published : Dict String ℕ) (cut : ℕ)
    → Has cut (keys (earliest_of observed earliest published))
      ↔ (Has cut (keys earliest) ⊎ ((c : String) × Has (c, cut) published))
unfolding earliest_of lower
keys-earliest_of observed earliest [] cut =
    (λ h. inl h, λ h. elim h [ inl m ↦ m | inr (c, m) ↦ absurd m ])
keys-earliest_of observed earliest ((k, at) ∷ rest) cut =
    let own =
      min (get_or at (get k observed)) (get_or (get_or at (get k observed)) (get at earliest)) in
    let ih = keys-earliest_of observed (lower at (get_or at (get k observed)) earliest) rest cut in
    (
      λ h. elim (ih.0 h) [
        | inl m ↦ elim ((Has-keys-put at cut own earliest).0 m) [
          | inl q ↦ inr (k, inl (ap (λ x. (k, x)) q))
          | inr j ↦ inl j
        ]
        | inr (c, m) ↦ inr (c, inr m)
      ],
      λ h. ih.1 (elim h [
        | inl m ↦ inl ((Has-keys-put at cut own earliest).1 (inr m))
        | inr (c, m) ↦ elim m [
          | inl q ↦ inl ((Has-keys-put at cut own earliest).1 (inl (ap (λ x. x.1) q)))
          | inr j ↦ inr (c, j)
        ]
      ]),
    )

Distinct-earliest_of :
    (observed : Dict String ℕ) (earliest : Dict ℕ ℕ) (published : Dict String ℕ)
    → Distinct (keys earliest)
    → Distinct (keys (earliest_of observed earliest published))
unfolding earliest_of lower
Distinct-earliest_of observed earliest [] d = d
Distinct-earliest_of observed earliest ((k, at) ∷ rest) d =
    Distinct-earliest_of observed (lower at (get_or at (get k observed)) earliest) rest
      (Distinct-keys-put at _ earliest d)

leb-IsOrder : IsOrder leb
leb-IsOrder = record { total = λ a b h. ground arith; trans = λ a b c h k. ground arith }

pub record IsTimeline (published_at : Dict String ℕ) (times : List (ℕ × ℕ)) : Type 0 where
  pub exact :
      (cut : ℕ) → Has cut (map (λ t. t.0) times) ↔ ((c : String) × Has (c, cut) published_at)
  pub once : Distinct (map (λ t. t.0) times)
  pub in_order : Ascending leb (map (λ t. t.0) times)
  pub never_back : StampsFrom 0 times

StampsFrom-start : (earliest : Dict ℕ ℕ) (cuts : List ℕ) → StampsFrom 0 (stamped earliest none cuts)
unfolding stamped
StampsFrom-start earliest [] = tt
StampsFrom-start earliest (cut ∷ cuts) = (
  ground arith,
  stamped-StampsFrom earliest (max (get_or cut (get cut earliest)) (get_or cut (get cut earliest)))
      cuts,
)

-- The moments are the times at which some changeset published, each once and in order, and their
-- stamps never go back.
pub snapshot_times-IsTimeline :
    (facts : Facts) (published_at : Dict String ℕ)
    → IsTimeline published_at (snapshot_times facts published_at)
unfolding snapshot_times
snapshot_times-IsTimeline facts published_at =
    let earliest = earliest_of (observed_at facts) [] published_at in
    let cuts = cuts-stamped earliest none (sorted leb (keys earliest)) in
    record {
      exact = λ cut. rw cuts (
        λ h.
            elim ((keys-earliest_of (observed_at facts) [] published_at cut).0
              ((Has-sorted leb cut (keys earliest)).0 h)) [ inl z ↦ absurd z | inr found ↦ found ],
        λ found.
            (Has-sorted leb cut (keys earliest)).1
              ((keys-earliest_of (observed_at facts) [] published_at cut).1 (inr found)),
      );
      once = rw cuts (
          Distinct-sorted leb (keys earliest)
            (Distinct-earliest_of (observed_at facts) [] published_at tt));
      in_order = rw cuts (sorted-Ascending leb-IsOrder (keys earliest));
      never_back = StampsFrom-start earliest (sorted leb (keys earliest));
    }

-- Keeping the fewer of the more keeps the fewer.
keep-keep :
    {A : Type 0} (p q : A → Bool) (xs : List A)
    → ((x : A) → p x ≡ true → q x ≡ true)
    → keep p (keep q xs) ≡ keep p xs
keep-keep p q [] imp = refl
keep-keep p q (x ∷ xs) imp = elim (Bool-cases (q x)) [
  | inl t ↦ rw (t, keep-keep p q xs imp) refl
  | inr f ↦ elim (Bool-cases (p x)) [
    | inl h ↦ absurd (cc (imp x h))
    | inr g ↦ rw (f, g, keep-keep p q xs imp) refl
  ]
]

-- A claim about who is who counts at every moment.
identity_counts :
    (published_at : Dict String ℕ) (at : ℕ) (c : Claim)
    → is_identity_field c.field_path ≡ true
    → claim_counts published_at at c ≡ true
unfolding claim_counts
identity_counts published_at at c t = rw t refl

module _ (facts : Facts) (published_at : Dict String ℕ) (at : ℕ) where
  same_as_claims-cut : same_as_claims (facts_as_of facts published_at at) ≡ same_as_claims facts
  unfolding same_as_claims facts_as_of
  same_as_claims-cut =
      keep-keep (λ c. c.entity_type == EntityType.person && c.field_path == some same_as_field)
        (claim_counts published_at at) facts.claims
        (λ c h.
          identity_counts published_at at c
            (let e = eq_of_eqb c.field_path (some same_as_field) (ground (arith, h)) in rw e refl))

  claims_about-cut :
      (r : SourceRecord)
      → claims_about (facts_as_of facts published_at at).claims r ≡ claims_about facts.claims r
  unfolding claims_about facts_as_of
  claims_about-cut r = ap (sorted claim_le) (
      keep-keep
        (λ c.
          c.entity_type == EntityType.source_record
          && (c.entity_id == r.id && c.field_path == some person_id_field))
        (claim_counts published_at at) facts.claims
        (λ c h.
          identity_counts published_at at c (
            let e = eq_of_eqb c.field_path (some person_id_field) (ground (arith, h)) in
            rw e refl)))

  person_id_of-cut :
      (r : SourceRecord)
      → person_id_of (facts_as_of facts published_at at).claims r ≡ person_id_of facts.claims r
  unfolding person_id_of
  person_id_of-cut r = ap (λ cs. value_or_own r.person_id (last cs)) (claims_about-cut r)

  settle-cut :
      (rs : List SourceRecord)
      → map
          (settle (facts_as_of facts published_at at).claims)
          (keep (λ r. counts published_at at r.changeset_id) rs)
        ≡ keep (λ r. counts published_at at r.changeset_id) (map (settle facts.claims) rs)
  settle-cut [] = refl
  settle-cut (r ∷ rs) = elim (Bool-cases (counts published_at at r.changeset_id)) [
    | inl t ↦ rw (t, person_id_of-cut r, settle-cut rs) refl
    | inr f ↦ rw (f, settle-cut rs) refl
  ]

  -- A cut at any moment leaves who is who alone: its merges give the same canonical ids, and reading
  -- whom each record is about, and then cutting, gives what cutting first gives.
  pub facts_as_of-identity :
      ((fuel : ℕ)
        → canonical_ids fuel (same_as_claims (facts_as_of facts published_at at))
          ≡ canonical_ids fuel (same_as_claims facts))
      × (with_person_ids (facts_as_of facts published_at at)
          ≡ facts_as_of (with_person_ids facts) published_at at)
  unfolding with_person_ids facts_as_of
  facts_as_of-identity = (
    λ fuel. ap (canonical_ids fuel) same_as_claims-cut,
    ap
        (λ rs. record facts {
          records = rs;
          claims = keep (claim_counts published_at at) facts.claims;
        })
        (settle-cut facts.records),
  )
