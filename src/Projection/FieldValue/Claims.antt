-- ===== src/Projection/FieldValue/Claims.antt =====
-- Whether a value stands, and which claims speak of a field.
use civicpatch_tools.Prelude.{
  Option, String, ◌≡◌, ◌≢◌, ◌↔◌, ◌⊎◌, inl, inr, Bool, true, false, ◌&&◌, none, some, List, ◌++◌,
  arith, ◌==◌, keep, last, mem, Has, Has-keep, mem_iff, Bool-cases, Option-cases, eq_of_eqb,
  eqb_of_eq, ne_of_eqb, string_eq, option_eq,
}
use civicpatch_tools.Prelude.Stamp.{by_stamp-IsOrder}
use civicpatch_tools.Prelude.Sort.{sorted, Has-sorted, last-sorted, last-none, IsOrder}
use civicpatch_tools.Projection.Facts.{
  Claim, ClaimKind, Facts, claim_le, record_le, claim_stamp, record_stamp, kind_eq,
}
use civicpatch_tools.Projection.FieldValue.{claims_for, not_rejected, stands}

pub claim_le-IsOrder : IsOrder claim_le
claim_le-IsOrder = by_stamp-IsOrder claim_stamp

pub record_le-IsOrder : IsOrder record_le
record_le-IsOrder = by_stamp-IsOrder record_stamp

-- A claim of this kind about this field of one of these people.
abbrev pub Says : List String → String → ClaimKind → Facts → Claim → Type 0
Says members field kind facts c =
    Has c facts.claims × Has c.entity_id members × (c.field_path ≡ some field) × (c.kind ≡ kind)

and_true : (a b : Bool) → (a && b) ≡ true → (a ≡ true) × (b ≡ true)
and_true a b h = ground arith

pub Has-claims_for :
    (members : List String) (field : String) (kind : ClaimKind) (facts : Facts) (c : Claim)
    → Has c (claims_for members field kind facts) ↔ Says members field kind facts c
unfolding claims_for
Has-claims_for members field kind facts c = (
  λ h.
      let (m, t) = (Has-keep _ c facts.claims).0 ((Has-sorted claim_le c _).0 h) in
      let (a, bc) = and_true (mem c.entity_id members) _ t in
      let (b, k) = and_true (c.field_path == some field) _ bc in
      (
        m,
        (mem_iff c.entity_id members).0 a,
        eq_of_eqb c.field_path (some field) b,
        eq_of_eqb c.kind kind k,
      ),
  λ (m, a, b, k). (Has-sorted claim_le c _).1 (
      (Has-keep _ c facts.claims).1 (
        m,
        rw (
          (mem_iff c.entity_id members).1 a,
          eqb_of_eq c.field_path (some field) b,
          eqb_of_eq c.kind kind k,
        ),
      )),
)

-- Of the claims that name a value, one that none is newer than.
abbrev pub IsNewestOn : Option String → List Claim → Claim → Type 0
IsNewestOn value claims c =
    Has c claims
    × (c.value ≡ value)
    × ((d : Claim) → Has d claims → d.value ≡ value → claim_le d c ≡ true)

module _ (value : Option String) (accepts rejects : List Claim) where
  newest-IsNewestOn :
      {c : Claim}
      → last (sorted claim_le (keep (λ c. c.value == value) (accepts ++ rejects))) ≡ some c
      → IsNewestOn value (accepts ++ rejects) c
  newest-IsNewestOn {c} e =
      let (m, top) =
        last-sorted claim_le-IsOrder (keep (λ c. c.value == value) (accepts ++ rejects)) e in
      let (listed, named) = (Has-keep (λ c. c.value == value) c (accepts ++ rejects)).0 m in
      (
        listed,
        eq_of_eqb c.value value named,
        λ d k v. top d (
            (Has-keep (λ c. c.value == value) d (accepts ++ rejects)).1
              (k, eqb_of_eq d.value value v)),
      )

  none-unnamed :
      last (sorted claim_le (keep (λ c. c.value == value) (accepts ++ rejects))) ≡ none
      → (d : Claim) → Has d (accepts ++ rejects)
      → d.value ≢ value
  none-unnamed e d m v =
      let empty =
        last-none (sorted claim_le (keep (λ c. c.value == value) (accepts ++ rejects))) e in
      rw empty at (
        (Has-sorted claim_le d _).1 (
          (Has-keep (λ c. c.value == value) d (accepts ++ rejects)).1
            (m, eqb_of_eq d.value value v)))

  -- A value stands exactly if no claim names it or the newest claim naming it is no reject: one
  -- that falls was rejected by a claim that no other claim naming it is newer than.
  pub stands_cases :
      (stands value accepts rejects ≡ true)
        × (((d : Claim) → Has d (accepts ++ rejects) → d.value ≢ value)
            ⊎ ((c : Claim) × IsNewestOn value (accepts ++ rejects) c × (c.kind ≢ ClaimKind.reject)))
      ⊎ (stands value accepts rejects ≡ false)
        × ((c : Claim) × IsNewestOn value (accepts ++ rejects) c × (c.kind ≡ ClaimKind.reject))
  unfolding stands not_rejected
  stands_cases =
      elim (Option-cases
        (last (sorted claim_le (keep (λ c. c.value == value) (accepts ++ rejects))))) [
          | inl e ↦ inl (rw e, inl (none-unnamed e))
          | inr (c, e) ↦ elim (Bool-cases (c.kind == ClaimKind.reject)) [
            | inl t ↦ inr (rw (e, t), (c, newest-IsNewestOn e, eq_of_eqb c.kind ClaimKind.reject t))
            | inr f ↦
                inl (rw (e, f), inr (c, newest-IsNewestOn e, ne_of_eqb c.kind ClaimKind.reject f))
          ]
        ]
