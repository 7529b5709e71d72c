-- ===== src/Prelude/Lists.antt =====
-- Lists measured by native numbers, membership with its place kept, and Boolean list functions.
use Prim.Native.Nat.{ℕ, suc}
use mathlib.Core.Path.{◌≡◌, refl, ap, sym, ◌∙◌}
use mathlib.Core.Logic.{◌↔◌, ◌⊎◌, inl, inr}
use mathlib.Core.Bool.{Bool, true, false, ◌&&◌, ◌||◌}
use mathlib.Core.Option.{Option, none, some}
use mathlib.Core.List.{List, [], ◌∷◌, ◌++◌, map}
use native.Mathlib.Omega.{arith}
use civicpatch_tools.Prelude.Tests.{if◌then◌else◌, HasEq, ◌==◌, Bool-cases, eq_of_eqb, eqb_of_eq}

module _ {A : Type 0} where
  abbrev pub length : List A → ℕ
  length [] = 0
  length (x ∷ xs) = suc (length xs)

  -- `x` stands in the list.
  abbrev pub Has : A → List A → Type 0
  Has x [] = ⊥
  Has x (y ∷ ys) = (x ≡ y) ⊎ Has x ys

  abbrev pub All : (A → Type 0) → List A → Type 0
  All P [] = Unit
  All P (x ∷ xs) = P x × All P xs

  -- No value stands twice.
  abbrev pub Distinct : List A → Type 0
  Distinct [] = Unit
  Distinct (x ∷ xs) = (¬ Has x xs) × Distinct xs

  -- `[x for x in xs if p(x)]`
  abbrev pub keep : (A → Bool) → List A → List A
  keep p [] = []
  keep p (x ∷ xs) = let rest = keep p xs in if p x then x ∷ rest else rest

  abbrev pub any_of : (A → Bool) → List A → Bool
  any_of p [] = false
  any_of p (x ∷ xs) = p x || any_of p xs

  abbrev pub all_of : (A → Bool) → List A → Bool
  all_of p [] = true
  all_of p (x ∷ xs) = p x && all_of p xs

  -- `xs[-1] if xs else None`
  abbrev pub last : List A → Option A
  last [] = none
  last (x ∷ []) = some x
  last (x ∷ y ∷ xs) = last (y ∷ xs)

  -- `next((x for x in xs if p(x)), None)`
  abbrev pub first : (A → Bool) → List A → Option A
  first p [] = none
  first p (x ∷ xs) = if p x then some x else first p xs

  pub All-of_Has : (P : A → Type 0) (xs : List A) {x : A} → All P xs → Has x xs → P x
  All-of_Has P [] h m = absurd m
  All-of_Has P (y ∷ ys) h (inl e) = rw e h.0
  All-of_Has P (y ∷ ys) h (inr m) = All-of_Has P ys h.1 m

  pub All-intro : (P : A → Type 0) (xs : List A) → ((x : A) → Has x xs → P x) → All P xs
  All-intro P [] f = tt
  All-intro P (x ∷ xs) f = (f x (inl refl), All-intro P xs (λ y m. f y (inr m)))

  pub Has-keep :
      (p : A → Bool) (x : A) (xs : List A) → Has x (keep p xs) ↔ (Has x xs × (p x ≡ true))
  Has-keep p x [] = (λ h. absurd h, λ h. absurd h.0)
  Has-keep p x (y ∷ ys) =
      let ih = Has-keep p x ys in
      elim (Bool-cases (p y)) [
        | inl e ↦ rw e (
          λ h. elim h [ inl q ↦ (inl q, rw q e) | inr m ↦ (inr (ih.0 m).0, (ih.0 m).1) ],
          λ h. elim h.0 [ inl q ↦ inl q | inr m ↦ inr (ih.1 (m, h.1)) ],
        )
        | inr e ↦ rw e (
          λ m. (inr (ih.0 m).0, (ih.0 m).1),
          λ h. elim h.0 [ inl q ↦ absurd (cc (ap p q)) | inr m ↦ ih.1 (m, h.1) ],
        )
      ]

  pub Has-append : (x : A) (xs ys : List A) → Has x (xs ++ ys) ↔ (Has x xs ⊎ Has x ys)
  Has-append x [] ys = (inr, λ h. elim h [ inl m ↦ absurd m | inr m ↦ m ])
  Has-append x (z ∷ xs) ys =
      let ih = Has-append x xs ys in
      (
        λ h. elim h [
          | inl e ↦ inl (inl e)
          | inr m ↦ elim (ih.0 m) [ inl a ↦ inl (inr a) | inr b ↦ inr b ]
        ],
        λ h. elim h [
          | inl m ↦ elim m [ inl e ↦ inl e | inr a ↦ inr (ih.1 (inl a)) ]
          | inr b ↦ inr (ih.1 (inr b))
        ],
      )

  pub any_of-true :
      (p : A → Bool) (xs : List A) → any_of p xs ≡ true → (x : A) × Has x xs × (p x ≡ true)
  any_of-true p [] h = absurd (cc)
  any_of-true p (x ∷ xs) h = elim (Bool-cases (p x)) [
    | inl e ↦ (x, inl refl, e)
    | inr e ↦ let (y, m, q) = any_of-true p xs (rw e at h) in (y, inr m, q)
  ]

  pub any_of-Has : (p : A → Bool) (xs : List A) (x : A) → Has x xs → p x ≡ true → any_of p xs ≡ true
  any_of-Has p [] x m e = absurd m
  any_of-Has p (y ∷ ys) x (inl q) e = rw (← q, e)
  any_of-Has p (y ∷ ys) x (inr m) e = ground (arith, any_of-Has p ys x m e)

  pub all_of-Has : (p : A → Bool) (xs : List A) (x : A) → all_of p xs ≡ true → Has x xs → p x ≡ true
  all_of-Has p [] x h m = absurd m
  all_of-Has p (y ∷ ys) x h (inl q) = rw q (ground arith)
  all_of-Has p (y ∷ ys) x h (inr m) = all_of-Has p ys x (ground arith) m

module _ {A : Type 0} where
  pub any_of_congr :
      (p q : A → Bool) (xs : List A) → All (λ x. p x ≡ q x) xs → any_of p xs ≡ any_of q xs
  any_of_congr p q [] h = refl
  any_of_congr p q (x ∷ xs) h = rw (h.0, any_of_congr p q xs h.1)

  pub any_of-append :
      (p : A → Bool) (xs ys : List A) → any_of p (xs ++ ys) ≡ (any_of p xs || any_of p ys)
  any_of-append p [] ys = refl
  any_of-append p (x ∷ xs) ys = ground (arith, any_of-append p xs ys)

  pub keep_congr : (p q : A → Bool) (xs : List A) → All (λ x. p x ≡ q x) xs → keep p xs ≡ keep q xs
  keep_congr p q [] h = refl
  keep_congr p q (x ∷ xs) h = rw (h.0, keep_congr p q xs h.1)

  pub keep-append : (p : A → Bool) (xs ys : List A) → keep p (xs ++ ys) ≡ keep p xs ++ keep p ys
  keep-append p [] ys = refl
  keep-append p (x ∷ xs) ys = ground (arith, keep-append p xs ys)

  pub keep_none : (p : A → Bool) (xs : List A) → All (λ x. p x ≡ false) xs → keep p xs ≡ []
  keep_none p [] h = refl
  keep_none p (x ∷ xs) h = rw (h.0, keep_none p xs h.1)

  pub keep-All : (p : A → Bool) (xs : List A) → All (λ x. p x ≡ true) xs → keep p xs ≡ xs
  keep-All p [] h = refl
  keep-All p (x ∷ xs) h = rw (h.0, keep-All p xs h.1)

pub Has-map :
    {A B : Type 0} (f : A → B) (xs : List A) {y : B}
    → Has y (map f xs) ↔ ((x : A) × Has x xs × (y ≡ f x))
Has-map f [] = (λ h. absurd h, λ h. absurd h.1)
Has-map f (x ∷ xs) {y} = (
  λ h. elim h [
    | inl e ↦ (x, inl refl, e)
    | inr m ↦ let (z, k, e) = (Has-map f xs).0 m in (z, inr k, e)
  ],
  λ (z, m, e). elim m [ inl q ↦ inl (e ∙ ap f q) | inr k ↦ inr ((Has-map f xs).1 (z, k, e)) ],
)

pub Distinct-snoc :
    {A : Type 0} (xs : List A) (x : A) → Distinct xs → (¬ Has x xs) → Distinct (xs ++ x ∷ [])
Distinct-snoc [] x d n = (λ m. m, tt)
Distinct-snoc (y ∷ ys) x d n = (
  λ m. elim ((Has-append y ys (x ∷ [])).0 m) [
    | inl k ↦ d.0 k
    | inr k ↦ elim k [ inl e ↦ n (inl (sym e)) | inr z ↦ z ]
  ],
  Distinct-snoc ys x d.1 (λ m. n (inr m)),
)

pub Distinct-keep : {A : Type 0} (p : A → Bool) (xs : List A) → Distinct xs → Distinct (keep p xs)
Distinct-keep p [] d = tt
Distinct-keep p (x ∷ xs) d = elim (Bool-cases (p x)) [
  | inl t ↦ rw t (λ m. d.0 ((Has-keep p x xs).0 m).0, Distinct-keep p xs d.1)
  | inr f ↦ rw f (Distinct-keep p xs d.1)
]

pub Distinct-middle :
    {A : Type 0} (xs ys : List A) (x : A)
    → Distinct (xs ++ ys)
    → (¬ Has x (xs ++ ys))
    → Distinct ((xs ++ x ∷ []) ++ ys)
Distinct-middle [] ys x d n = (n, d)
Distinct-middle (z ∷ xs) ys x d n = (
  λ m. elim ((Has-append z (xs ++ x ∷ []) ys).0 m) [
    | inl k ↦ elim ((Has-append z xs (x ∷ [])).0 k) [
      | inl j ↦ d.0 ((Has-append z xs ys).1 (inl j))
      | inr j ↦ elim j [ inl e ↦ n (inl (sym e)) | inr w ↦ w ]
    ]
    | inr k ↦ d.0 ((Has-append z xs ys).1 (inr k))
  ],
  Distinct-middle xs ys x d.1 (λ m. n (inr m)),
)

module _ {A : Type 0} ⦃e : HasEq A⦄ where
  -- `x in xs`
  abbrev pub mem : A → List A → Bool
  mem x [] = false
  mem x (y ∷ ys) = x == y || mem x ys

  pub mem_iff : (x : A) (xs : List A) → (mem x xs ≡ true) ↔ Has x xs
  mem_iff x [] = (λ h. cc, λ h. absurd h)
  mem_iff x (y ∷ ys) = (
    λ h. elim (Bool-cases (x == y)) [
      | inl q ↦ inl (eq_of_eqb x y q)
      | inr q ↦ inr ((mem_iff x ys).0 (rw q at h))
    ],
    λ h. elim h [ inl q ↦ rw (eqb_of_eq x y q) | inr m ↦ ground (arith, (mem_iff x ys).1 m) ],
  )
