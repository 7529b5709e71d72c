-- ===== src/Projection/CanonicalIds/Forest.antt =====
-- The parents of ids as a forest, and `find` in it.
use civicpatch_tools.Prelude.{
  ℕ, zero, suc, ◌≤◌, ◌<◌, ◌+◌, String, ◌≡◌, ◌≢◌, refl, sym, ap, ◌∙◌, none, some, List, [], ◌∷◌,
  arith, ◌==◌, Bool-cases, inl, inr, Has, length, string_eq, eq_of_eqb, ne_of_eqb,
}
use civicpatch_tools.Prelude.Dict.{Dict, get, put, get-put_self, get-put_ne, length-put_new}
use civicpatch_tools.Projection.Facts.{value_id, Claim}
use civicpatch_tools.Projection.CanonicalIds.{find, join, merge_claims}

-- `p` reaches the root `r` in `n` steps.
abbrev pub LeadsTo : Dict String String → ℕ → String → String → Type 0
LeadsTo parent zero p r = (get p parent ≡ none) × (r ≡ p)
LeadsTo parent (suc n) p r = (q : String) × (get p parent ≡ some q) × (q ≢ p) × LeadsTo parent n q r

LeadsTo-root :
    (parent : Dict String String) (n : ℕ) (p r : String)
    → LeadsTo parent n p r
    → get r parent ≡ none
LeadsTo-root parent zero p r (e, q) = rw q e
LeadsTo-root parent (suc n) p r (q, e, d, l) = LeadsTo-root parent n q r l

pub LeadsTo-unique :
    (parent : Dict String String) (n m : ℕ) (p r s : String)
    → LeadsTo parent n p r
    → LeadsTo parent m p s
    → r ≡ s
LeadsTo-unique parent zero zero p r s l k = l.1 ∙ sym k.1
LeadsTo-unique parent zero (suc m) p r s l k = absurd (cc (l.0, k.1))
LeadsTo-unique parent (suc n) zero p r s l k = absurd (cc (l.1, k.0))
LeadsTo-unique parent (suc n) (suc m) p r s (q, e, d, l) (q', e', d', k) =
    let same : q ≡ q' = cc in LeadsTo-unique parent n m q r s l (rw same k)

pub find-LeadsTo :
    (parent : Dict String String) (n fuel : ℕ) (p r : String)
    → LeadsTo parent n p r
    → n < fuel
    → find parent fuel p ≡ some r
unfolding find
find-LeadsTo parent n zero p r l h = absurd (omega arith)
find-LeadsTo parent zero (suc fuel) p r (e, q) h = rw (e, q)
find-LeadsTo parent (suc n) (suc fuel) p r (q, e, d, l) h =
    rw e (ground (arith, eq_of_eqb q p, find-LeadsTo parent n fuel q r l))

-- Every id reaches a root in no more steps than there are entries.
abbrev pub IsForest : Dict String String → Type 0
IsForest parent = (p : String) → (n : ℕ) × (r : String) × (n ≤ length parent) × LeadsTo parent n p r

module _ (parent : Dict String String) (a b : String) (a_root : get a parent ≡ none)
    (b_root : get b parent ≡ none) (differ : a ≢ b) where
  put_other : (n : ℕ) (p r : String) → LeadsTo parent n p r → r ≢ a → LeadsTo (put a b parent) n p r
  put_other zero p r (e, q) k = (rw (get-put_ne a p b parent (λ s. k (q ∙ sym s))) e, q)
  put_other (suc n) p r (q, e, d, l) k =
      let other : a ≢ p = λ s. cc (a_root, ap (λ x. get x parent) s) in
      (q, rw (get-put_ne a p b parent other) e, d, put_other n q r l k)

  put_joined : (n : ℕ) (p : String) → LeadsTo parent n p a → LeadsTo (put a b parent) (suc n) p b
  put_joined zero p (e, q) = (
    b,
    rw (← q) (get-put_self a b parent),
    λ s. differ (q ∙ sym s),
    (rw (get-put_ne a b b parent differ) b_root, refl),
  )
  put_joined (suc n) p (q, e, d, l) =
      let other : a ≢ p = λ s. cc (a_root, ap (λ x. get x parent) s) in
      (q, rw (get-put_ne a p b parent other) e, d, put_joined n q l)

  put-IsForest : IsForest parent → IsForest (put a b parent)
  put-IsForest f p =
      let (n, r, le, l) = f p in
      elim (Bool-cases (r == a)) [
        | inl e ↦ (
          suc n,
          b,
          omega (arith, length-put_new a b parent a_root),
          put_joined n p (rw (eq_of_eqb r a e) at l),
        )
        | inr e ↦ (
          n,
          r,
          omega (arith, length-put_new a b parent a_root),
          put_other n p r l (ne_of_eqb r a e),
        )
      ]

-- The equivalence that the claims generate: each one says that its two ids are one person.
pub data Linked (cs : List Claim) : String → String → Type 0 where
  same : {p q : String} → p ≡ q → Linked cs p q
  claimed : {p q : String} (c : Claim) → Has c cs → p ≡ c.entity_id → q ≡ value_id c → Linked cs p q
  back : {p q : String} → Linked cs q p → Linked cs p q
  chain : {p q r : String} → Linked cs p q → Linked cs q r → Linked cs p r

abbrev pub SameRoot : Dict String String → String → String → Type 0
SameRoot parent p q = (r : String) × (n : ℕ) × (m : ℕ) × LeadsTo parent n p r × LeadsTo parent m q r

abbrev pub RootsLinked : List Claim → Dict String String → Type 0
RootsLinked cs parent = (n : ℕ) (p r : String) → LeadsTo parent n p r → Linked cs p r

module _ (parent : Dict String String) (a b : String) (a_root : get a parent ≡ none)
    (b_root : get b parent ≡ none) (differ : a ≢ b) where
  put-SameRoot : (p q : String) → SameRoot parent p q → SameRoot (put a b parent) p q
  put-SameRoot p q (r, n, m, l, k) = elim (Bool-cases (r == a)) [
    | inl e ↦
        let s = eq_of_eqb r a e in
        (
          b,
          suc n,
          suc m,
          put_joined parent a b a_root b_root differ n p (rw s at l),
          put_joined parent a b a_root b_root differ m q (rw s at k),
        )
    | inr e ↦
        let s = ne_of_eqb r a e in
        (
          r,
          n,
          m,
          put_other parent a b a_root b_root differ n p r l s,
          put_other parent a b a_root b_root differ m q r k s,
        )
  ]

  put-RootsLinked :
      (cs : List Claim)
      → IsForest parent
      → RootsLinked cs parent
      → Linked cs a b
      → RootsLinked cs (put a b parent)
  put-RootsLinked cs f rl ab n p r l =
      let (n₀, r₀, le, l₀) = f p in
      elim (Bool-cases (r₀ == a)) [
        | inl e ↦
            let l₁ = rw (eq_of_eqb r₀ a e) at l₀ in
            let l₂ = put_joined parent a b a_root b_root differ n₀ p l₁ in
            rw (LeadsTo-unique (put a b parent) n (suc n₀) p r b l l₂)
              (Linked.chain (rl n₀ p a l₁) ab)
        | inr e ↦
            let l₂ = put_other parent a b a_root b_root differ n₀ p r₀ l₀ (ne_of_eqb r₀ a e) in
            rw (LeadsTo-unique (put a b parent) n n₀ p r r₀ l l₂) (rl n₀ p r₀ l₀)
      ]

-- What the loop has done once it is through `todo`.
pub record Merged (cs : List Claim) (fuel : ℕ) (parent : Dict String String) (todo : List Claim)
    (parent' : Dict String String) : Type 0 where
  pub returns : merge_claims fuel parent todo ≡ some parent'
  pub forest : IsForest parent'
  pub linked : RootsLinked cs parent'
  pub short : length parent' < fuel
  pub joined : (c : Claim) → Has c todo → SameRoot parent' c.entity_id (value_id c)
  pub kept : (p q : String) → SameRoot parent p q → SameRoot parent' p q

module _ (cs : List Claim) (fuel : ℕ) where
  pub merge_claims_lem :
      (parent : Dict String String) (todo : List Claim)
      → ((c : Claim) → Has c todo → Has c cs)
      → IsForest parent
      → RootsLinked cs parent
      → length parent + length todo < fuel
      → (parent' : Dict String String) × Merged cs fuel parent todo parent'
  unfolding merge_claims join
  merge_claims_lem parent [] sub f rl h = (
    parent,
    record {
      returns = refl;
      forest = f;
      linked = rl;
      short = omega arith;
      joined = λ c m. absurd m;
      kept = λ p q s. s;
    },
  )
  merge_claims_lem parent (c ∷ todo) sub f rl h =
      let (n, a, le, l) = f c.entity_id in
      let (m, b, le', k) = f (value_id c) in
      let found_a = find-LeadsTo parent n fuel c.entity_id a l (omega arith) in
      let found_b = find-LeadsTo parent m fuel (value_id c) b k (omega arith) in
      let sub' : (x : Claim) → Has x todo → Has x cs = λ x i. sub x (inr i) in
      elim (Bool-cases (a == b)) [
        | inl e ↦
            let (parent', d) = merge_claims_lem parent todo sub' f rl (omega arith) in
            let s : SameRoot parent c.entity_id (value_id c) =
              (b, n, m, rw (eq_of_eqb a b e) at l, k) in
            (
              parent',
              record {
                returns = rw (found_a, found_b, e) d.returns;
                forest = d.forest;
                linked = d.linked;
                short = d.short;
                joined = λ x i. elim i [ inl q ↦ rw q (d.kept _ _ s) | inr j ↦ d.joined x j ];
                kept = d.kept;
              },
            )
        | inr e ↦
            let ar = LeadsTo-root parent n c.entity_id a l in
            let br = LeadsTo-root parent m (value_id c) b k in
            let ne = ne_of_eqb a b e in
            let ab : Linked cs a b =
              Linked.chain (Linked.back (rl n _ a l))
                (Linked.chain (Linked.claimed c (sub c (inl refl)) refl refl) (rl m _ b k)) in
            let (parent', d) =
              merge_claims_lem (put a b parent) todo sub' (put-IsForest parent a b ar br ne f)
                (put-RootsLinked parent a b ar br ne cs f rl ab)
                (omega (arith, length-put_new a b parent ar)) in
            let s : SameRoot (put a b parent) c.entity_id (value_id c) = (
              b,
              suc n,
              m,
              put_joined parent a b ar br ne n _ l,
              put_other parent a b ar br ne m _ b k (λ q. ne (sym q)),
            ) in
            (
              parent',
              record {
                returns = rw (found_a, found_b, e) d.returns;
                forest = d.forest;
                linked = d.linked;
                short = d.short;
                joined = λ x i. elim i [ inl q ↦ rw q (d.kept _ _ s) | inr j ↦ d.joined x j ];
                kept = λ p q t. d.kept p q (put-SameRoot parent a b ar br ne p q t);
              },
            )
      ]
