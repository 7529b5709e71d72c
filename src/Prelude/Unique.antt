-- ===== src/Prelude/Unique.antt =====
-- `dict.fromkeys`: the values of a list, each once, in the order in which they first stand.
use mathlib.Core.Logic.{◌↔◌, ◌⊎◌, inl, inr}
use mathlib.Core.List.{List, [], ◌∷◌, ◌++◌}
use civicpatch_tools.Prelude.Tests.{if◌then◌else◌, HasEq, Bool-cases}
use civicpatch_tools.Prelude.Lists.{Has, Has-append, Distinct, Distinct-snoc, mem, mem_iff}

module _ {A : Type 0} ⦃e : HasEq A⦄ where
  unfoldable pub unique_onto : List A → List A → List A
  unique_onto seen [] = seen
  unique_onto seen (x ∷ xs) = unique_onto (if mem x seen then seen else seen ++ x ∷ []) xs

  unfoldable pub unique : List A → List A
  unfolding unique_onto
  unique xs = unique_onto [] xs

  Has-unique_onto :
      (z : A) (seen xs : List A) → Has z (unique_onto seen xs) ↔ (Has z seen ⊎ Has z xs)
  unfolding unique_onto
  Has-unique_onto z seen [] = (inl, λ h. elim h [ inl m ↦ m | inr m ↦ absurd m ])
  Has-unique_onto z seen (x ∷ xs) = elim (Bool-cases (mem x seen)) [
    | inl t ↦
        let ih = Has-unique_onto z seen xs in
        rw t (
          λ h. elim (ih.0 h) [ inl m ↦ inl m | inr m ↦ inr (inr m) ],
          λ h. ih.1 (elim h [
            | inl m ↦ inl m
            | inr m ↦ elim m [ inl q ↦ inl (rw q ((mem_iff x seen).0 t)) | inr k ↦ inr k ]
          ]),
        )
    | inr t ↦
        let ih = Has-unique_onto z (seen ++ x ∷ []) xs in
        let ap_iff = Has-append z seen (x ∷ []) in
        rw t (
          λ h. elim (ih.0 h) [
            | inl m ↦ elim (ap_iff.0 m) [
              | inl k ↦ inl k
              | inr k ↦ elim k [ inl q ↦ inr (inl q) | inr w ↦ absurd w ]
            ]
            | inr m ↦ inr (inr m)
          ],
          λ h. ih.1 (elim h [
            | inl m ↦ inl (ap_iff.1 (inl m))
            | inr m ↦ elim m [ inl q ↦ inl (ap_iff.1 (inr (inl q))) | inr k ↦ inr k ]
          ]),
        )
  ]

  Distinct-unique_onto : (seen xs : List A) → Distinct seen → Distinct (unique_onto seen xs)
  unfolding unique_onto
  Distinct-unique_onto seen [] d = d
  Distinct-unique_onto seen (x ∷ xs) d = elim (Bool-cases (mem x seen)) [
    | inl t ↦ rw t (Distinct-unique_onto seen xs d)
    | inr t ↦ rw t (
        Distinct-unique_onto (seen ++ x ∷ []) xs
          (Distinct-snoc seen x d (λ m. cc (t, (mem_iff x seen).1 m))))
  ]

  pub Has-unique : (z : A) (xs : List A) → Has z (unique xs) ↔ Has z xs
  unfolding unique
  Has-unique z xs = (
    λ h. elim ((Has-unique_onto z [] xs).0 h) [ inl m ↦ absurd m | inr m ↦ m ],
    λ m. (Has-unique_onto z [] xs).1 (inr m),
  )

  pub Distinct-unique : (xs : List A) → Distinct (unique xs)
  unfolding unique
  Distinct-unique xs = Distinct-unique_onto [] xs tt
