-- ===== src/Prelude/Each.antt =====
-- A function called on each element of a list: one that may fail, and one that gives a list.
use mathlib.Core.Path.{◌≡◌, refl}
use mathlib.Core.Logic.{◌↔◌, inl, inr}
use mathlib.Core.Option.{Option, some}
use mathlib.Core.List.{List, [], ◌∷◌, ◌++◌, map}
use civicpatch_tools.Prelude.Tests.{◌>>=◌, Option-cases}
use civicpatch_tools.Prelude.Lists.{Has, Has-append}

-- `[f(x) for x in xs]`, where a call may fail.
unfoldable pub each : {A B : Type 0} → (A → Option B) → List A → Option (List B)
each f [] = some []
each f (x ∷ xs) = do y ← f x; ys ← each f xs; some (y ∷ ys)

-- `[y for x in xs for y in f(x)]`
abbrev pub flat_map : {A B : Type 0} → (A → List B) → List A → List B
flat_map f [] = []
flat_map f (x ∷ xs) = f x ++ flat_map f xs

module _ {A B : Type 0} where
  -- What the calls gave, and nothing else.
  abbrev pub Gave : (A → Option B) → List A → List B → Type 0
  Gave f xs ys = (y : B) → Has y ys ↔ ((x : A) × Has x xs × (f x ≡ some y))

  pub each-returns :
      (f : A → Option B) (xs : List A)
      → ((x : A) → Has x xs → (y : B) × (f x ≡ some y))
      → (ys : List B) × (each f xs ≡ some ys) × Gave f xs ys
  unfolding each
  each-returns f [] h = ([], refl, λ y. (λ m. absurd m, λ (x, m, e). absurd m))
  each-returns f (x ∷ xs) h =
      let (y, e) = h x (inl refl) in
      let (ys, es, gave) = each-returns f xs (λ z m. h z (inr m)) in
      (
        y ∷ ys,
        rw (e, es),
        λ z. (
          λ m. elim m [
            | inl q ↦ (x, inl refl, rw q e)
            | inr k ↦ let (w, n, d) = (gave z).0 k in (w, inr n, d)
          ],
          λ (w, n, d). elim n [
            | inl q ↦ inl (cc (rw q at d, e))
            | inr k ↦ inr ((gave z).1 (w, k, d))
          ],
        ),
      )

  pub Has-flat_map :
      (f : A → List B) (y : B) (xs : List A)
      → Has y (flat_map f xs) ↔ ((x : A) × Has x xs × Has y (f x))
  Has-flat_map f y [] = (λ m. absurd m, λ (x, m, k). absurd m)
  Has-flat_map f y (x ∷ xs) = (
    λ m. elim ((Has-append y (f x) (flat_map f xs)).0 m) [
      | inl k ↦ (x, inl refl, k)
      | inr k ↦ let (z, n, j) = (Has-flat_map f y xs).0 k in (z, inr n, j)
    ],
    λ (z, n, j).
        (Has-append y (f x) (flat_map f xs)).1
          (elim n [ inl q ↦ inl (rw q at j) | inr k ↦ inr ((Has-flat_map f y xs).1 (z, k, j)) ]),
  )

-- What the calls gave names their arguments, in order.
pub map-each :
    {A B : Type 0} (f : A → Option B) (g : B → A)
    → ((x : A) (y : B) → f x ≡ some y → g y ≡ x)
    → (xs : List A) (ys : List B) → each f xs ≡ some ys
    → map g ys ≡ xs
unfolding each
map-each f g named [] ys h = let e : [] ≡ ys = cc in rw (← e)
map-each f g named (x ∷ xs) ys h = elim (Option-cases (f x)) [
  | inl e ↦ absurd (cc (rw e at h))
  | inr (y, e) ↦ elim (Option-cases (each f xs)) [
    | inl d ↦ absurd (cc (rw (e, d) at h))
    | inr (zs, d) ↦
        let q : y ∷ zs ≡ ys = cc (rw (e, d) at h) in
        rw (← q, named x y e, map-each f g named xs zs d)
  ]
]
