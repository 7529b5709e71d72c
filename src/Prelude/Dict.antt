-- ===== src/Prelude/Dict.antt =====
-- Python's `dict`: an association list that keeps the order in which keys were first inserted.
use Prim.Native.Nat.{suc}
use mathlib.Core.Path.{◌≡◌, refl, sym}
use mathlib.Core.Logic.{◌↔◌, ◌⊎◌, ◌≢◌, inl, inr}
use mathlib.Core.Bool.{Bool, true, false}
use mathlib.Core.Option.{Option, none, some}
use mathlib.Core.List.{List, [], ◌∷◌, ◌++◌, map, append-nil, append_assoc}
use native.Mathlib.Omega.{arith}
use civicpatch_tools.Prelude.Tests.{
  if◌then◌else◌, Bool-cases, HasEq, ◌==◌, eqb_refl, eq_of_eqb, ne_of_eqb,
}
use civicpatch_tools.Prelude.Lists.{length, Has, Distinct, keep}

abbrev pub Dict : Type 0 → Type 0 → Type 0
Dict K V = List (K × V)

abbrev pub keys : {K V : Type 0} → Dict K V → List K
keys d = map (λ e. e.0) d

abbrev pub values : {K V : Type 0} → Dict K V → List V
values d = map (λ e. e.1) d

module _ {K V : Type 0} ⦃e : HasEq K⦄ where
  -- `d.get(k)`
  unfoldable pub get : K → Dict K V → Option V
  get k [] = none
  get k ((j, v) ∷ d) = if j == k then some v else get k d

  -- `d[k] = v`: an old key keeps its place.
  unfoldable pub put : K → V → Dict K V → Dict K V
  put k v [] = (k, v) ∷ []
  put k v ((j, w) ∷ d) = let rest = put k v d in if j == k then (j, v) ∷ d else (j, w) ∷ rest

  -- `k in d`
  abbrev pub has_key : K → Dict K V → Bool
  has_key k d = elim (get k d) [ none ↦ false | some v ↦ true ]

  -- `d.pop(k)`
  unfoldable pub pop : K → Dict K V → Dict K V
  pop k [] = []
  pop k ((j, v) ∷ d) = let rest = pop k d in if j == k then rest else (j, v) ∷ rest

  -- `{k: v for k, v in entries}`, over what `d` has.
  unfoldable pub put_all : Dict K V → List (K × V) → Dict K V
  unfolding put
  put_all d [] = d
  put_all d ((k, v) ∷ entries) = put_all (put k v d) entries

  pub get-put_self : (k : K) (v : V) (d : Dict K V) → get k (put k v d) ≡ some v
  unfolding get put
  get-put_self k v [] = rw (eqb_refl k)
  get-put_self k v ((j, w) ∷ d) = elim (Bool-cases (j == k)) [
    | inl h ↦ rw h (rw h)
    | inr h ↦ rw h (rw h (get-put_self k v d))
  ]

  pub get-put_ne : (k j : K) (v : V) (d : Dict K V) → k ≢ j → get j (put k v d) ≡ get j d
  unfolding get put
  get-put_ne k j v [] n = ground (arith, e.eqb_iff k j)
  get-put_ne k j v ((i, w) ∷ d) n = elim (Bool-cases (i == k)) [
    | inl h ↦ rw h (ground (arith, e.eqb_iff i j, e.eqb_iff i k))
    | inr h ↦ rw h (ground (arith, get-put_ne k j v d n))
  ]

  pub get-put :
      (k j : K) (v : V) (d : Dict K V) → get j (put k v d) ≡ (if k == j then some v else get j d)
  get-put k j v d = elim (Bool-cases (k == j)) [
    | inl h ↦ rw h (rw (← eq_of_eqb k j h) (get-put_self k v d))
    | inr h ↦ rw h (get-put_ne k j v d (ne_of_eqb k j h))
  ]

  pub Has-keys_of_get : (k : K) (v : V) (d : Dict K V) → get k d ≡ some v → Has (k, v) d
  unfolding get
  Has-keys_of_get k v [] h = absurd (cc)
  Has-keys_of_get k v ((j, w) ∷ d) h = elim (Bool-cases (j == k)) [
    | inl q ↦ inl (ground (arith, e.eqb_iff j k))
    | inr q ↦ inr (Has-keys_of_get k v d (rw q at h))
  ]

  pub get_none→not_key : (k : K) (d : Dict K V) → get k d ≡ none → ¬ Has k (keys d)
  unfolding get
  get_none→not_key k [] h m = m
  get_none→not_key k ((j, w) ∷ d) h m = elim (Bool-cases (j == k)) [
    | inl q ↦ cc (rw q at h)
    | inr q ↦ elim m [
      | inl p ↦ ne_of_eqb j k q (sym p)
      | inr r ↦ get_none→not_key k d (rw q at h) r
    ]
  ]

  pub length-put_new :
      (k : K) (v : V) (d : Dict K V) → get k d ≡ none → length (put k v d) ≡ suc (length d)
  unfolding get put
  length-put_new k v [] h = refl
  length-put_new k v ((j, w) ∷ d) h = ground (arith, length-put_new k v d)

  -- Which keys a dictionary has after an assignment.
  pub Has-keys-put :
      (k j : K) (v : V) (d : Dict K V) → Has j (keys (put k v d)) ↔ ((j ≡ k) ⊎ Has j (keys d))
  unfolding put
  Has-keys-put k j v [] = (λ h. h, λ h. h)
  Has-keys-put k j v ((i, w) ∷ d) = elim (Bool-cases (i == k)) [
    | inl q ↦ rw q (inr, λ h. elim h [ inl p ↦ inl (cc (eq_of_eqb i k q)) | inr m ↦ m ])
    | inr q ↦
        let ih = Has-keys-put k j v d in
        rw q (
          λ h. elim h [
            | inl p ↦ inr (inl p)
            | inr m ↦ elim (ih.0 m) [ inl p ↦ inl p | inr r ↦ inr (inr r) ]
          ],
          λ h. elim h [
            | inl p ↦ inr (ih.1 (inl p))
            | inr m ↦ elim m [ inl p ↦ inl p | inr r ↦ inr (ih.1 (inr r)) ]
          ],
        )
  ]

  -- Assignment keeps the keys without repetition.
  pub Distinct-keys-put :
      (k : K) (v : V) (d : Dict K V) → Distinct (keys d) → Distinct (keys (put k v d))
  unfolding put
  Distinct-keys-put k v [] h = (λ m. m, tt)
  Distinct-keys-put k v ((j, w) ∷ d) h = elim (Bool-cases (j == k)) [
    | inl q ↦ rw q h
    | inr q ↦ rw q (
      λ m. elim ((Has-keys-put k j v d).0 m) [ inl p ↦ ne_of_eqb j k q p | inr r ↦ h.0 r ],
      Distinct-keys-put k v d h.1,
    )
  ]

or_empty : {A : Type 0} → Option (List A) → List A
or_empty none = []
or_empty (some xs) = xs

module _ {K A : Type 0} ⦃e : HasEq K⦄ where
  -- `d.get(k, [])`
  unfoldable pub group_of : K → Dict K (List A) → List A
  unfolding or_empty
  group_of k d = or_empty (get k d)

  -- `d.setdefault(k, []).append(x)`
  unfoldable pub append_to : K → A → Dict K (List A) → Dict K (List A)
  append_to k x d = put k (group_of k d ++ x ∷ []) d

  -- The loop that groups a list by a key.
  unfoldable pub group_by : (A → K) → Dict K (List A) → List A → Dict K (List A)
  group_by key d [] = d
  group_by key d (x ∷ xs) = group_by key (append_to (key x) x d) xs

  group_of-append_to :
      (k j : K) (x : A) (d : Dict K (List A))
      → group_of j (append_to k x d) ≡ group_of j d ++ (if k == j then x ∷ [] else [])
  unfolding append_to group_of or_empty
  group_of-append_to k j x d =
      rw (get-put k j (group_of k d ++ x ∷ []) d) (two (Bool-cases (k == j)))
    where
      two :
          (((k == j) ≡ true) ⊎ ((k == j) ≡ false))
          → or_empty (if k == j then some (group_of k d ++ x ∷ []) else get j d)
            ≡ or_empty (get j d) ++ (if k == j then x ∷ [] else [])
      two (inl h) = rw h (rw (eq_of_eqb k j h) refl)
      two (inr h) = rw h (sym (append-nil (or_empty (get j d))))

  -- A group holds, in order, the elements that have its key.
  pub group_of-group_by :
      (key : A → K) (k : K) (d : Dict K (List A)) (xs : List A)
      → group_of k (group_by key d xs) ≡ group_of k d ++ keep (λ x. key x == k) xs
  unfolding group_by
  group_of-group_by key k d [] = sym (append-nil (group_of k d))
  group_of-group_by key k d (x ∷ xs) =
      rw (group_of-group_by key k (append_to (key x) x d) xs, group_of-append_to, append_assoc)
        (one (key x == k))
    where
      one :
          (b : Bool)
          → group_of k d ++ ((if b then x ∷ [] else []) ++ keep (λ x. key x == k) xs)
            ≡ group_of k d
              ++ (if b then x ∷ keep (λ x. key x == k) xs else keep (λ x. key x == k) xs)
      one true = refl
      one false = refl

  pub group_of-get :
      (k : K) (g : List A) (d : Dict K (List A)) → get k d ≡ some g → group_of k d ≡ g
  unfolding group_of or_empty
  group_of-get k g d h = rw h

  group_of-nil : (k : K) → group_of k [] ≡ []
  unfolding group_of get or_empty
  group_of-nil k = refl

  pub group_by-eq_keep :
      (key : A → K) (k : K) (xs : List A)
      → group_of k (group_by key [] xs) ≡ keep (λ x. key x == k) xs
  group_by-eq_keep key k xs = rw (group_of-group_by key k [] xs, group_of-nil)
