-- ===== src/Projection/CanonicalIds/Connected.antt =====
-- `canonical_ids` and the chains of `same_as` claims.
use civicpatch_tools.Prelude.{
  ℕ, zero, suc, ◌<◌, String, ◌≡◌, ◌↔◌, refl, sym, ◌∙◌, none, some, List, [], ◌∷◌, arith, ◌==◌,
  Bool-cases, Option-cases, inl, inr, Has, length, string_eq, eq_of_eqb,
}
use civicpatch_tools.Prelude.Dict.{Dict, get}
use civicpatch_tools.Prelude.Sort.{sorted, Has-sorted, length-sorted}
use civicpatch_tools.Projection.Facts.{value_id, Claim, claim_le}
use civicpatch_tools.Projection.CanonicalIds.{find, resolve, canonical_ids, root_in}
use civicpatch_tools.Projection.CanonicalIds.Forest.{
  LeadsTo, LeadsTo-unique, find-LeadsTo, IsForest, Linked, RootsLinked, SameRoot, merge_claims_lem,
}

module _ (parent : Dict String String) (fuel : ℕ) (forest : IsForest parent)
    (short : length parent < fuel) where
  -- What an entry of the result says.
  abbrev Resolves : Dict String String → Dict String String → Type 0
  Resolves sub d =
      ((p : String) → get p sub ≡ none → get p d ≡ none)
      × ((p q : String)
          → get p sub ≡ some q
          → (r : String) × (n : ℕ) × (get p d ≡ some r) × LeadsTo parent n p r)

  resolve_lem :
      (sub : Dict String String)
      → (d : Dict String String) × (resolve (find parent fuel) sub ≡ some d) × Resolves sub d
  unfolding resolve get
  resolve_lem [] = ([], refl, (λ p h. refl, λ p q h. absurd (cc)))
  resolve_lem ((k, w) ∷ sub) =
      let (n, r, le, l) = forest k in
      let found = find-LeadsTo parent n fuel k r l (omega arith) in
      let (d, e, (absent, present)) = resolve_lem sub in
      (
        (k, r) ∷ d,
        rw (found, e),
        (
          λ p h. elim (Bool-cases (k == p)) [
            | inl t ↦ absurd (cc (rw t at h))
            | inr t ↦ rw t (absent p (rw t at h))
          ],
          λ p q h. elim (Bool-cases (k == p)) [
            | inl t ↦ (r, n, rw t, rw (← eq_of_eqb k p t) l)
            | inr t ↦ let (r', n', g, l') = present p q (rw t at h) in (r', n', rw t g, l')
          ],
        ),
      )

  root_in-LeadsTo :
      (d : Dict String String)
      → Resolves parent d
      → (p : String) → (n : ℕ) × LeadsTo parent n p (root_in d p)
  unfolding root_in
  root_in-LeadsTo d (absent, present) p = elim (Option-cases (get p parent)) [
    | inl e ↦ (zero, rw (absent p e) (e, refl))
    | inr (q, e) ↦ let (r, n, g, l) = present p q e in (n, rw g l)
  ]

module _ (cs : List Claim) (parent : Dict String String) (forest : IsForest parent)
    (joined : (c : Claim) → Has c cs → SameRoot parent c.entity_id (value_id c)) where
  Linked-SameRoot : {p q : String} → Linked cs p q → SameRoot parent p q
  Linked-SameRoot {p} {q} (Linked.same e) = let (n, r, le, l) = forest p in (r, n, n, l, rw (← e) l)
  Linked-SameRoot (Linked.claimed c m e f) = rw (e, f) (joined c m)
  Linked-SameRoot (Linked.back l) = let (r, n, m, a, b) = Linked-SameRoot l in (r, m, n, b, a)
  Linked-SameRoot (Linked.chain {q = q} l k) =
      let (r, n, m, a, b) = Linked-SameRoot l in
      let (s, n', m', a', b') = Linked-SameRoot k in
      (r, n, m', a, rw (LeadsTo-unique parent m n' q r s b a') b')

nil-RootsLinked : (cs : List Claim) → RootsLinked cs []
unfolding get
nil-RootsLinked cs zero p r (e, q) = Linked.same (sym q)
nil-RootsLinked cs (suc n) p r (q, e, d, l) = absurd (cc)

nil-IsForest : IsForest []
unfolding get
nil-IsForest p = (zero, p, omega arith, (refl, refl))

-- With fuel for one step more than there are claims, `canonical_ids` returns, and two ids have the
-- same canonical id if and only if a chain of `same_as` claims, read in either direction and in
-- whatever order they were made, connects them; and each id is connected with its canonical id.
pub canonical_ids-connected :
    (fuel : ℕ) (same_as : List Claim)
    → length same_as < fuel
    → (d : Dict String String) × (canonical_ids fuel same_as ≡ some d)
      × ((p q : String) → (root_in d p ≡ root_in d q) ↔ Linked same_as p q)
      × ((p : String) → Linked same_as p (root_in d p))
unfolding canonical_ids
canonical_ids-connected fuel same_as enough =
    let cs = sorted claim_le same_as in
    let listed : (c : Claim) → Has c cs → Has c same_as = λ c. (Has-sorted claim_le c same_as).0 in
    let (parent, m) =
      merge_claims_lem same_as fuel [] cs listed nil-IsForest (nil-RootsLinked same_as)
        (omega (arith, length-sorted claim_le same_as)) in
    let (d, e, r) = resolve_lem parent fuel m.forest m.short parent in
    let root = root_in-LeadsTo parent fuel m.forest m.short d r in
    (
      d,
      rw (m.returns, e),
      λ p q.
          let (i, l) = root p in
          let (j, k) = root q in
          (
            λ same. Linked.chain (m.linked i p _ l) (Linked.back (rw same (m.linked j q _ k))),
            λ linked.
                let (s, n, n', a, b) =
                  Linked-SameRoot same_as parent m.forest
                    (λ c i. m.joined c ((Has-sorted claim_le c same_as).1 i)) linked in
                LeadsTo-unique parent i n p _ s l a ∙ sym (LeadsTo-unique parent j n' q _ s k b),
          ),
      λ p. let (i, l) = root p in m.linked i p _ l,
    )
