-- ===== src/Prelude/Groups.antt =====
-- What the loop that groups a list by a key leaves in its dictionary.
use mathlib.Core.Path.{◌≡◌, refl, sym, ap, ◌∙◌}
use mathlib.Core.Logic.{◌↔◌, ◌⊎◌, inl, inr}
use mathlib.Core.Option.{some}
use mathlib.Core.List.{List, [], ◌∷◌, ◌++◌, map}
use civicpatch_tools.Prelude.Tests.{HasEq, ◌==◌, Bool-cases, eqb_of_eq, eq_of_eqb}
use civicpatch_tools.Prelude.Lists.{Has, Has-map, Distinct, keep}
use civicpatch_tools.Prelude.Dict.{
  Dict, keys, values, get, group_of, append_to, group_by, group_by-eq_keep, group_of-get,
  Has-keys_of_get, Has-keys-put, Distinct-keys-put,
}

module _ {K V : Type 0} ⦃e : HasEq K⦄ where
  -- With no key twice, an entry is what its key gives.
  pub get-of_Has :
      (k : K) (v : V) (d : Dict K V) → Distinct (keys d) → Has (k, v) d → get k d ≡ some v
  unfolding get
  get-of_Has k v [] u m = absurd m
  get-of_Has k v ((j, w) ∷ d) u (inl q) =
      let s : j ≡ k = ap (λ (t : K × V). t.0) (sym q) in
      let r : w ≡ v = ap (λ (t : K × V). t.1) (sym q) in rw (eqb_of_eq j k s, r)
  get-of_Has k v ((j, w) ∷ d) u (inr m) = elim (Bool-cases (j == k)) [
    | inl t ↦ absurd (u.0 ((Has-map (λ (x : K × V). x.0) d).1 ((k, v), m, eq_of_eqb j k t)))
    | inr f ↦ rw f (get-of_Has k v d u.1 m)
  ]

  pub get-of_key : (k : K) (d : Dict K V) → Has k (keys d) → (v : V) × (get k d ≡ some v)
  unfolding get
  get-of_key k [] m = absurd m
  get-of_key k ((j, w) ∷ d) m = elim (Bool-cases (j == k)) [
    | inl t ↦ (w, rw t)
    | inr f ↦ elim m [
      | inl q ↦ absurd (cc (f, eqb_of_eq j k (sym q)))
      | inr r ↦ let (v, h) = get-of_key k d r in (v, rw f h)
    ]
  ]

module _ {K A : Type 0} ⦃e : HasEq K⦄ (key : A → K) where
  Distinct-keys-group_by :
      (d : Dict K (List A)) (xs : List A) → Distinct (keys d) → Distinct (keys (group_by key d xs))
  unfolding group_by append_to
  Distinct-keys-group_by d [] u = u
  Distinct-keys-group_by d (x ∷ xs) u =
      Distinct-keys-group_by (append_to (key x) x d) xs (Distinct-keys-put (key x) _ d u)

  pub Distinct-groups : (xs : List A) → Distinct (keys (group_by key [] xs))
  Distinct-groups xs = Distinct-keys-group_by [] xs tt

  Has-keys-group_by :
      (k : K) (d : Dict K (List A)) (xs : List A)
      → Has k (keys (group_by key d xs)) ↔ (Has k (keys d) ⊎ Has k (map key xs))
  unfolding group_by append_to
  Has-keys-group_by k d [] = (inl, λ h. elim h [ inl m ↦ m | inr m ↦ absurd m ])
  Has-keys-group_by k d (x ∷ xs) =
      let ih = Has-keys-group_by k (append_to (key x) x d) xs in
      let once = Has-keys-put (key x) k (group_of (key x) d ++ x ∷ []) d in
      (
        λ h. elim (ih.0 h) [
          | inl m ↦ elim (once.0 m) [ inl q ↦ inr (inl q) | inr r ↦ inl r ]
          | inr m ↦ inr (inr m)
        ],
        λ h. ih.1 (elim h [
          | inl m ↦ inl (once.1 (inr m))
          | inr m ↦ elim m [ inl q ↦ inl (once.1 (inl q)) | inr r ↦ inr r ]
        ]),
      )

  -- The keys are those of the elements.
  pub Has-keys-groups :
      (k : K) (xs : List A) → Has k (keys (group_by key [] xs)) ↔ Has k (map key xs)
  Has-keys-groups k xs = (
    λ m. elim ((Has-keys-group_by k [] xs).0 m) [ inl w ↦ absurd w | inr r ↦ r ],
    λ m. (Has-keys-group_by k [] xs).1 (inr m),
  )

  -- The groups are, under each key that an element has, the elements with that key, in order.
  pub Has-groups :
      (k : K) (g : List A) (xs : List A)
      → Has (k, g) (group_by key [] xs) ↔ (Has k (map key xs) × (g ≡ keep (λ x. key x == k) xs))
  Has-groups k g xs = (
    λ m. (
      elim ((Has-keys-group_by k [] xs).0
          ((Has-map (λ (x : K × List A). x.0) (group_by key [] xs)).1 ((k, g), m, refl))) [
            | inl w ↦ absurd w
            | inr r ↦ r
          ],
      found g (get-of_Has k g (group_by key [] xs) (Distinct-groups xs) m),
    ),
    λ (m, q).
        let (g', h) = get-of_key k (group_by key [] xs) ((Has-keys-group_by k [] xs).1 (inr m)) in
        listed g' h (q ∙ sym (found g' h)),
  )
    where
      found : (v : List A) → get k (group_by key [] xs) ≡ some v → v ≡ keep (λ x. key x == k) xs
      found v h = sym (group_of-get k v (group_by key [] xs) h) ∙ group_by-eq_keep key k xs

      listed :
          (v : List A)
          → get k (group_by key [] xs) ≡ some v
          → g ≡ v
          → Has (k, g) (group_by key [] xs)
      listed v h q = rw q (Has-keys_of_get k v (group_by key [] xs) h)

  -- The groups are those of the elements.
  pub Has-values-groups :
      (g : List A) (xs : List A)
      → Has g (values (group_by key [] xs))
        ↔ ((x : A) × Has x xs × (g ≡ keep (λ y. key y == key x) xs))
  Has-values-groups g xs = (
    λ m.
        let ((k, h), n, e) = (Has-map (λ (t : K × List A). t.1) (group_by key [] xs)).0 m in
        let (o, q) = (Has-groups k h xs).0 n in
        let (x, j, s) = (Has-map key xs).0 o in (x, j, e ∙ q ∙ rw s refl),
    λ (x, m, e). (Has-map (λ (t : K × List A). t.1) (group_by key [] xs)).1 (
      (key x, keep (λ y. key y == key x) xs),
      (Has-groups (key x) (keep (λ y. key y == key x) xs) xs).1
          ((Has-map key xs).1 (x, m, refl), refl),
      e,
    ),
  )
