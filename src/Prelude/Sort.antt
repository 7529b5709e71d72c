-- ===== src/Prelude/Sort.antt =====
-- Python's `sorted` and `max`: a stable sort and the first greatest element, by a Boolean order.
use Prim.Native.Nat.{suc}
use mathlib.Core.Path.{◌≡◌, refl, sym, subst}
use mathlib.Core.Logic.{◌↔◌, ◌⊎◌, inl, inr}
use mathlib.Core.Bool.{Bool, true, false}
use mathlib.Core.Option.{none, some}
use mathlib.Core.List.{List, [], ◌∷◌}
use native.Mathlib.Omega.{arith}
use civicpatch_tools.Prelude.Tests.{if◌then◌else◌, Bool-cases}
use civicpatch_tools.Prelude.Lists.{length, Has, All, All-intro, All-of_Has, Distinct, last}

-- A total preorder, given by its test.
pub record IsOrder {A : Type 0} (le : A → A → Bool) : Type 0 where
  pub total : (a b : A) → le a b ≡ false → le b a ≡ true
  pub trans : (a b c : A) → le a b ≡ true → le b c ≡ true → le a c ≡ true

module _ {A : Type 0} (le : A → A → Bool) where
  insert : A → List A → List A
  insert x [] = x ∷ []
  insert x (y ∷ ys) = let rest = insert x ys in if le x y then x ∷ y ∷ ys else y ∷ rest

  unfoldable pub sorted : List A → List A
  unfolding insert
  sorted [] = []
  sorted (x ∷ xs) = insert x (sorted xs)

  -- Each element is at most every later one.
  abbrev pub Ascending : List A → Type 0
  Ascending [] = Unit
  Ascending (x ∷ xs) = All (λ y. le x y ≡ true) xs × Ascending xs

  Has-insert : (z x : A) (xs : List A) → Has z (insert x xs) ↔ ((z ≡ x) ⊎ Has z xs)
  unfolding insert
  Has-insert z x [] = (λ h. h, λ h. h)
  Has-insert z x (y ∷ ys) = elim (Bool-cases (le x y)) [
    | inl e ↦ rw e (λ h. h, λ h. h)
    | inr e ↦ rw e (
      λ h. elim h [
        | inl q ↦ inr (inl q)
        | inr m ↦ elim ((Has-insert z x ys).0 m) [ inl q ↦ inl q | inr k ↦ inr (inr k) ]
      ],
      λ h. elim h [
        | inl q ↦ inr ((Has-insert z x ys).1 (inl q))
        | inr m ↦ elim m [ inl q ↦ inl q | inr k ↦ inr ((Has-insert z x ys).1 (inr k)) ]
      ],
    )
  ]

  pub Has-sorted : (z : A) (xs : List A) → Has z (sorted xs) ↔ Has z xs
  unfolding sorted
  Has-sorted z [] = (λ h. h, λ h. h)
  Has-sorted z (x ∷ xs) = (
    λ h. elim ((Has-insert z x (sorted xs)).0 h) [
      | inl q ↦ inl q
      | inr m ↦ inr ((Has-sorted z xs).0 m)
    ],
    λ h.
        (Has-insert z x (sorted xs)).1
          (elim h [ inl q ↦ inl q | inr m ↦ inr ((Has-sorted z xs).1 m) ]),
  )

  length-insert : (x : A) (xs : List A) → length (insert x xs) ≡ suc (length xs)
  unfolding insert
  length-insert x [] = refl
  length-insert x (y ∷ ys) = ground (arith, length-insert x ys)

  pub length-sorted : (xs : List A) → length (sorted xs) ≡ length xs
  unfolding sorted
  length-sorted [] = refl
  length-sorted (x ∷ xs) = omega (arith, length-insert x (sorted xs), length-sorted xs)

  Distinct-insert : (x : A) (xs : List A) → (¬ Has x xs) → Distinct xs → Distinct (insert x xs)
  unfolding insert
  Distinct-insert x [] n d = (n, tt)
  Distinct-insert x (y ∷ ys) n d = elim (Bool-cases (le x y)) [
    | inl e ↦ rw e (n, d)
    | inr e ↦ rw e (
      λ m. elim ((Has-insert y x ys).0 m) [ inl q ↦ n (inl (sym q)) | inr k ↦ d.0 k ],
      Distinct-insert x ys (λ m. n (inr m)) d.1,
    )
  ]

  pub Distinct-sorted : (xs : List A) → Distinct xs → Distinct (sorted xs)
  unfolding sorted
  Distinct-sorted [] d = tt
  Distinct-sorted (x ∷ xs) d =
      Distinct-insert x (sorted xs) (λ m. d.0 ((Has-sorted x xs).0 m)) (Distinct-sorted xs d.1)

  -- `max(xs, key=…)`: the first of the greatest elements.
  unfoldable pub max_from : A → List A → A
  max_from m [] = m
  max_from m (x ∷ xs) = max_from (if le x m then m else x) xs

-- `w` is `m` or in the list, and at least `m` and all of the list.
abbrev pub IsGreatest : {A : Type 0} → (A → A → Bool) → A → List A → A → Type 0
IsGreatest {A} le m xs w =
    ((w ≡ m) ⊎ Has w xs) × (le m w ≡ true) × ((y : A) → Has y xs → le y w ≡ true)

module _ {A : Type 0} {le : A → A → Bool} (o : IsOrder le) where
  open o use {total, trans}

  pub refl_of : (a : A) → le a a ≡ true
  refl_of a = elim (Bool-cases (le a a)) [ inl e ↦ e | inr e ↦ total a a e ]

  raise :
      (x y : A) (zs : List A)
      → le x y ≡ true
      → All (λ z. le y z ≡ true) zs
      → All (λ z. le x z ≡ true) zs
  raise x y [] e k = tt
  raise x y (z ∷ zs) e k = (trans x y z e k.0, raise x y zs e k.1)

  Ascending-insert : (x : A) (xs : List A) → Ascending le xs → Ascending le (insert le x xs)
  unfolding insert
  Ascending-insert x [] h = (tt, tt)
  Ascending-insert x (y ∷ ys) h = elim (Bool-cases (le x y)) [
    | inl e ↦ rw e ((e, raise x y ys e h.0), h)
    | inr e ↦ rw e (
      All-intro (λ z. le y z ≡ true) (insert le x ys)
          (λ z m. elim ((Has-insert le z x ys).0 m) [
            | inl q ↦ rw q (total x y e)
            | inr k ↦ All-of_Has (λ w. le y w ≡ true) ys h.0 k
          ]),
      Ascending-insert x ys h.1,
    )
  ]

  pub sorted-Ascending : (xs : List A) → Ascending le (sorted le xs)
  unfolding sorted
  sorted-Ascending [] = tt
  sorted-Ascending (x ∷ xs) = Ascending-insert x (sorted le xs) (sorted-Ascending xs)

  pub last-Has : (xs : List A) {z : A} → last xs ≡ some z → Has z xs
  last-Has [] h = absurd (cc)
  last-Has (x ∷ []) h = inl (cc)
  last-Has (x ∷ y ∷ xs) h = inr (last-Has (y ∷ xs) h)

  pub last-greatest :
      (xs : List A) {y z : A} → Ascending le xs → last xs ≡ some z → Has y xs → le y z ≡ true
  last-greatest [] a h m = absurd m
  last-greatest (x ∷ []) {y} {z} a h (inl q) = let e : y ≡ z = cc in rw e (refl_of z)
  last-greatest (x ∷ []) a h (inr m) = absurd m
  last-greatest (x ∷ w ∷ xs) a h (inl q) =
      rw q (All-of_Has (λ v. le x v ≡ true) (w ∷ xs) a.0 (last-Has (w ∷ xs) h))
  last-greatest (x ∷ w ∷ xs) a h (inr m) = last-greatest (w ∷ xs) a.1 h m

  -- The last of the sorted elements is one of them, and no element is greater.
  pub last-sorted :
      (xs : List A) {z : A}
      → last (sorted le xs) ≡ some z
      → Has z xs × ((y : A) → Has y xs → le y z ≡ true)
  last-sorted xs h = (
    (Has-sorted le _ xs).0 (last-Has (sorted le xs) h),
    λ y m. last-greatest (sorted le xs) (sorted-Ascending xs) h ((Has-sorted le y xs).1 m),
  )

  max_from_keep :
      (m x : A) (xs : List A) → le x m ≡ true → max_from le m (x ∷ xs) ≡ max_from le m xs
  unfolding max_from
  max_from_keep m x xs e = rw e

  max_from_take :
      (m x : A) (xs : List A) → le x m ≡ false → max_from le m (x ∷ xs) ≡ max_from le x xs
  unfolding max_from
  max_from_take m x xs e = rw e

  pub max_from_lem : (m : A) (xs : List A) → IsGreatest le m xs (max_from le m xs)
  max_from_lem m [] = unfold max_from in (inl refl, refl_of m, λ y h. absurd h)
  max_from_lem m (x ∷ xs) = elim (Bool-cases (le x m)) [
    | inl e ↦
        let (from, up, all) = max_from_lem m xs in
        subst (IsGreatest le m (x ∷ xs)) (sym (max_from_keep m x xs e)) (
          elim from [ inl q ↦ inl q | inr k ↦ inr (inr k) ],
          up,
          λ y h. elim h [ inl q ↦ rw q (trans x m _ e up) | inr k ↦ all y k ],
        )
    | inr e ↦
        let (from, up, all) = max_from_lem x xs in
        subst (IsGreatest le m (x ∷ xs)) (sym (max_from_take m x xs e)) (
          elim from [ inl q ↦ inr (inl q) | inr k ↦ inr (inr k) ],
          trans m x _ (total x m e) up,
          λ y h. elim h [ inl q ↦ rw q up | inr k ↦ all y k ],
        )
  ]

pub last-none : {A : Type 0} (xs : List A) → last xs ≡ none → xs ≡ []
last-none [] h = refl
last-none (x ∷ []) h = absurd (cc)
last-none (x ∷ y ∷ xs) h = absurd (cc (last-none (y ∷ xs) h))
