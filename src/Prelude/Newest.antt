-- ===== src/Prelude/Newest.antt =====
-- The newest element with a property: the last of a sorted list, read forwards or backwards.
use mathlib.Core.Path.{◌≡◌, refl, sym}
use mathlib.Core.Logic.{◌↔◌, ◌⊎◌, inl, inr}
use mathlib.Core.Bool.{Bool, true, false}
use mathlib.Core.Option.{none, some}
use mathlib.Core.List.{List, [], ◌∷◌, ◌++◌, reverse, reverse-cons}
use civicpatch_tools.Prelude.Tests.{Bool-cases}
use civicpatch_tools.Prelude.Lists.{Has, Has-append, Has-keep, All-intro, All-of_Has, keep, first}
use civicpatch_tools.Prelude.Sort.{IsOrder, Ascending, refl_of}

module _ {A : Type 0} where
  pub Has-reverse : (x : A) (xs : List A) → Has x (reverse xs) ↔ Has x xs
  Has-reverse x [] = (λ h. h, λ h. h)
  Has-reverse x (y ∷ ys) = rw reverse-cons (
    λ h. elim ((Has-append x (reverse ys) (y ∷ [])).0 h) [
      | inl m ↦ inr ((Has-reverse x ys).0 m)
      | inr m ↦ elim m [ inl e ↦ inl e | inr k ↦ absurd k ]
    ],
    λ h.
        (Has-append x (reverse ys) (y ∷ [])).1
          (elim h [ inl e ↦ inr (inl e) | inr m ↦ inl ((Has-reverse x ys).1 m) ]),
  )

  pub first-some :
      (p : A → Bool) (xs : List A) {z : A} → first p xs ≡ some z → Has z xs × (p z ≡ true)
  first-some p [] h = absurd (cc)
  first-some p (x ∷ xs) {z} h = elim (Bool-cases (p x)) [
    | inl t ↦ let e : x ≡ z = cc (rw t at h) in (inl (sym e), rw (← e) t)
    | inr f ↦ let (m, q) = first-some p xs (rw f at h) in (inr m, q)
  ]

  pub first-none :
      (p : A → Bool) (xs : List A) → first p xs ≡ none → (y : A) → Has y xs → p y ≡ false
  first-none p [] h y m = absurd m
  first-none p (x ∷ xs) h y m = elim (Bool-cases (p x)) [
    | inl t ↦ absurd (cc (rw t at h))
    | inr f ↦ elim m [ inl e ↦ rw e f | inr k ↦ first-none p xs (rw f at h) y k ]
  ]

  first-append :
      (p : A → Bool) (xs : List A) (x : A) {z : A}
      → first p (xs ++ x ∷ []) ≡ some z
      → (first p xs ≡ some z) ⊎ ((first p xs ≡ none) × (x ≡ z) × (p x ≡ true))
  first-append p [] x {z} h = elim (Bool-cases (p x)) [
    | inl t ↦ inr (refl, cc (rw t at h), t)
    | inr f ↦ absurd (cc (rw f at h))
  ]
  first-append p (y ∷ ys) x {z} h = elim (Bool-cases (p y)) [
    | inl t ↦ inl (rw t (rw t at h))
    | inr f ↦ rw f (first-append p ys x (rw f at h))
  ]

  pub Ascending-keep :
      (le : A → A → Bool) (p : A → Bool) (xs : List A) → Ascending le xs → Ascending le (keep p xs)
  Ascending-keep le p [] h = tt
  Ascending-keep le p (x ∷ xs) h = elim (Bool-cases (p x)) [
    | inl t ↦ rw t (
      All-intro _ (keep p xs) (λ y m. All-of_Has _ xs h.0 ((Has-keep p y xs).0 m).0),
      Ascending-keep le p xs h.1,
    )
    | inr f ↦ rw f (Ascending-keep le p xs h.1)
  ]

module _ {A : Type 0} {le : A → A → Bool} (o : IsOrder le) where
  -- Read backwards, an ascending list gives first the newest element with the property.
  pub first-reverse :
      (p : A → Bool) (xs : List A) {z : A}
      → Ascending le xs
      → first p (reverse xs) ≡ some z
      → Has z xs × (p z ≡ true) × ((y : A) → Has y xs → p y ≡ true → le y z ≡ true)
  first-reverse p [] a h = absurd (cc)
  first-reverse p (x ∷ xs) {z} a h = elim (first-append p (reverse xs) x (rw reverse-cons at h)) [
    | inl e ↦
        let (m, q, top) = first-reverse p xs a.1 e in
        (inr m, q, λ y k t. elim k [ inl s ↦ rw s (All-of_Has _ xs a.0 m) | inr j ↦ top y j t ])
    | inr (e, s, t) ↦ (
      inl (sym s),
      rw (← s) t,
      λ y k u. elim k [
        | inl v ↦ rw (v, ← s) (refl_of o x)
        | inr j ↦ absurd (cc (u, first-none p (reverse xs) e y ((Has-reverse y xs).1 j)))
      ],
    )
  ]
