-- ===== src/Prelude/Same.antt =====
-- Lists that hold the same elements, in whatever order: what is sorted by time and id does not depend
-- on that order.
use Prim.Native.Char.{code}
use Prim.Native.String.{String}
use mathlib.Core.Path.{◌≡◌, refl, sym, ap, ◌∙◌}
use mathlib.Core.Logic.{◌↔◌, inl, inr}
use mathlib.Core.Bool.{Bool, true}
use mathlib.Core.List.{List, [], ◌∷◌, map}
use native.Mathlib.Omega.{arith}
use text.Mathlib.TextEquality.{Char-path}
use civicpatch_tools.Prelude.Tests.{HasEq, Bool-cases}
use civicpatch_tools.Prelude.Lists.{
  Has, All-of_Has, Has-keep, Has-map, Distinct, keep, any_of, any_of-true, any_of-Has, mem, mem_iff,
}
use civicpatch_tools.Prelude.Sort.{sorted, Ascending, sorted-Ascending, Has-sorted, Distinct-sorted}
use civicpatch_tools.Prelude.Stamp.{Stamp, stamp_leb, text_leb, by_stamp-IsOrder, text_leb-IsOrder}

abbrev pub SameElements : {A : Type 0} → List A → List A → Type 0
SameElements {A} xs ys = (x : A) → Has x xs ↔ Has x ys

text_leb_antisym : (s t : String) → text_leb s t ≡ true → text_leb t s ≡ true → s ≡ t
unfolding text_leb
text_leb_antisym String.[] String.[] h k = refl
text_leb_antisym String.[] (String.◌∷◌ d t) h k = absurd (cc)
text_leb_antisym (String.◌∷◌ c s) String.[] h k = absurd (cc)
text_leb_antisym (String.◌∷◌ c s) (String.◌∷◌ d t) h k =
    let e : code c ≡ code d = ground arith in
    let q : s ≡ t = ground (arith, text_leb_antisym s t) in ap2 (Char-path c d e) q
  where
    ap2 : {a b : _} → a ≡ b → {x y : String} → x ≡ y → String.◌∷◌ a x ≡ String.◌∷◌ b y
    ap2 p q = cc

pub stamp_leb_antisym : (a b : Stamp) → stamp_leb a b ≡ true → stamp_leb b a ≡ true → a ≡ b
unfolding stamp_leb
stamp_leb_antisym a b h k = ground (arith, text_leb_antisym a.1 b.1)

module _ {A : Type 0} (le : A → A → Bool) where
  -- No two elements are as late as each other.
  abbrev pub Antisymmetric : List A → Type 0
  Antisymmetric xs = (a b : A) → Has a xs → Has b xs → le a b ≡ true → le b a ≡ true → a ≡ b

  pub Ascending-unique :
      (xs ys : List A)
      → Antisymmetric xs
      → Ascending le xs
      → Ascending le ys
      → Distinct xs
      → Distinct ys
      → SameElements xs ys
      → xs ≡ ys
  Ascending-unique [] [] anti a b d e same = refl
  Ascending-unique [] (y ∷ ys) anti a b d e same = absurd ((same y).1 (inl refl))
  Ascending-unique (x ∷ xs) [] anti a b d e same = absurd ((same x).0 (inl refl))
  Ascending-unique (x ∷ xs) (y ∷ ys) anti a b d e same =
      let heads : x ≡ y = elim ((same x).0 (inl refl)) [
        | inl q ↦ q
        | inr m ↦ elim ((same y).1 (inl refl)) [
          | inl q ↦ sym q
          | inr n ↦
              anti x y (inl refl) (inr n) (All-of_Has (λ z. le x z ≡ true) xs a.0 n)
                (All-of_Has (λ z. le y z ≡ true) ys b.0 m)
        ]
      ] in
      let tails : SameElements xs ys = λ z. (
        λ m. elim ((same z).0 (inr m)) [
          | inl q ↦ absurd (d.0 (rw (q ∙ sym heads) at m))
          | inr n ↦ n
        ],
        λ m. elim ((same z).1 (inr m)) [ inl q ↦ absurd (e.0 (rw (q ∙ heads) at m)) | inr n ↦ n ],
      ) in
      let rest =
        Ascending-unique xs ys (λ v w m n. anti v w (inr m) (inr n)) a.1 b.1 d.1 e.1 tails in
      cc (heads, rest)

pub any_of_same :
    {A : Type 0} (p q : A → Bool) (xs ys : List A)
    → ((x : A) → p x ≡ q x)
    → SameElements xs ys
    → any_of p xs ≡ any_of q ys
any_of_same p q xs ys agree same = elim (Bool-cases (any_of p xs)) [
  | inl t ↦
      let (x, m, e) = any_of-true p xs t in
      t ∙ sym (any_of-Has q ys x ((same x).0 m) (sym (agree x) ∙ e))
  | inr f ↦ elim (Bool-cases (any_of q ys)) [
    | inl t ↦
        let (x, m, e) = any_of-true q ys t in
        absurd (cc (f, any_of-Has p xs x ((same x).1 m) (agree x ∙ e)))
    | inr g ↦ f ∙ sym g
  ]
]

pub mem_same :
    {A : Type 0} ⦃e : HasEq A⦄ (x : A) (xs ys : List A) → SameElements xs ys → mem x xs ≡ mem x ys
mem_same x xs ys same = elim (Bool-cases (mem x xs)) [
  | inl t ↦ t ∙ sym ((mem_iff x ys).1 ((same x).0 ((mem_iff x xs).0 t)))
  | inr f ↦ elim (Bool-cases (mem x ys)) [
    | inl t ↦ absurd (cc (f, (mem_iff x xs).1 ((same x).1 ((mem_iff x ys).0 t))))
    | inr g ↦ f ∙ sym g
  ]
]

pub map_same :
    {A B : Type 0} (f : A → B) (xs ys : List A)
    → SameElements xs ys
    → SameElements (map f xs) (map f ys)
map_same f xs ys same y = (
  λ m. let (x, k, e) = (Has-map f xs).0 m in (Has-map f ys).1 (x, (same x).0 k, e),
  λ m. let (x, k, e) = (Has-map f ys).0 m in (Has-map f xs).1 (x, (same x).1 k, e),
)

pub keep_same :
    {A : Type 0} (p q : A → Bool) (xs ys : List A)
    → ((x : A) → p x ≡ q x)
    → SameElements xs ys
    → SameElements (keep p xs) (keep q ys)
keep_same p q xs ys agree same x = (
  λ m. let (k, e) = (Has-keep p x xs).0 m in (Has-keep q x ys).1 ((same x).0 k, sym (agree x) ∙ e),
  λ m. let (k, e) = (Has-keep q x ys).0 m in (Has-keep p x xs).1 ((same x).1 k, agree x ∙ e),
)

module _ {A B : Type 0} (f : A → B) where
  pub Distinct-of_map : (xs : List A) → Distinct (map f xs) → Distinct xs
  Distinct-of_map [] d = tt
  Distinct-of_map (x ∷ xs) d = (λ m. d.0 ((Has-map f xs).1 (x, m, refl)), Distinct-of_map xs d.1)

  pub eq_of_image :
      (xs : List A) (a b : A) → Distinct (map f xs) → Has a xs → Has b xs → f a ≡ f b → a ≡ b
  eq_of_image [] a b d m n e = absurd m
  eq_of_image (x ∷ xs) a b d (inl p) (inl q) e = p ∙ sym q
  eq_of_image (x ∷ xs) a b d (inl p) (inr n) e =
      absurd (d.0 ((Has-map f xs).1 (b, n, sym (ap f p) ∙ e)))
  eq_of_image (x ∷ xs) a b d (inr m) (inl q) e =
      absurd (d.0 ((Has-map f xs).1 (a, m, sym (ap f q) ∙ sym e)))
  eq_of_image (x ∷ xs) a b d (inr m) (inr n) e = eq_of_image xs a b d.1 m n e

  pub Distinct-map-keep :
      (p : A → Bool) (xs : List A) → Distinct (map f xs) → Distinct (map f (keep p xs))
  Distinct-map-keep p [] d = tt
  Distinct-map-keep p (x ∷ xs) d = elim (Bool-cases (p x)) [
    | inl t ↦ rw t (
      λ m.
          let (y, k, e) = (Has-map f (keep p xs)).0 m in
          d.0 ((Has-map f xs).1 (y, ((Has-keep p y xs).0 k).0, e)),
      Distinct-map-keep p xs d.1,
    )
    | inr g ↦ rw g (Distinct-map-keep p xs d.1)
  ]

module _ {A : Type 0} (key : A → Stamp) where
  -- What is sorted by time and id, once kept by one and the same test, is one and the same list
  -- wherever the elements are the same and no id stands twice.
  pub sorted-keep_same :
      (p q : A → Bool) (xs ys : List A)
      → Distinct (map (λ x. (key x).1) xs)
      → Distinct (map (λ x. (key x).1) ys)
      → ((x : A) → p x ≡ q x)
      → SameElements xs ys
      → sorted (λ a b. stamp_leb (key a) (key b)) (keep p xs)
        ≡ sorted (λ a b. stamp_leb (key a) (key b)) (keep q ys)
  sorted-keep_same p q xs ys d e agree same =
      let le : A → A → Bool = λ a b. stamp_leb (key a) (key b) in
      let id : A → String = λ x. (key x).1 in
      let dx = Distinct-map-keep id p xs d in
      let dy = Distinct-map-keep id q ys e in
      Ascending-unique le (sorted le (keep p xs)) (sorted le (keep q ys))
        (λ a b m n h k.
          eq_of_image id (keep p xs) a b dx ((Has-sorted le a (keep p xs)).0 m)
            ((Has-sorted le b (keep p xs)).0 n)
            (ap (λ (s : Stamp). s.1) (stamp_leb_antisym (key a) (key b) h k)))
        (sorted-Ascending (by_stamp-IsOrder key) (keep p xs))
        (sorted-Ascending (by_stamp-IsOrder key) (keep q ys))
        (Distinct-sorted le (keep p xs) (Distinct-of_map id (keep p xs) dx))
        (Distinct-sorted le (keep q ys) (Distinct-of_map id (keep q ys) dy))
        (λ z.
          let kept = keep_same p q xs ys agree same z in
          (
            λ m. (Has-sorted le z (keep q ys)).1 (kept.0 ((Has-sorted le z (keep p xs)).0 m)),
            λ m. (Has-sorted le z (keep p xs)).1 (kept.1 ((Has-sorted le z (keep q ys)).0 m)),
          ))

-- Texts without repetition, sorted.
pub sorted-texts_same :
    (xs ys : List String)
    → Distinct xs
    → Distinct ys
    → SameElements xs ys
    → sorted text_leb xs ≡ sorted text_leb ys
sorted-texts_same xs ys d e same =
    Ascending-unique text_leb (sorted text_leb xs) (sorted text_leb ys)
      (λ a b m n h k. text_leb_antisym a b h k) (sorted-Ascending text_leb-IsOrder xs)
      (sorted-Ascending text_leb-IsOrder ys) (Distinct-sorted text_leb xs d)
      (Distinct-sorted text_leb ys e)
      (λ z. (
        λ m. (Has-sorted text_leb z ys).1 ((same z).0 ((Has-sorted text_leb z xs).0 m)),
        λ m. (Has-sorted text_leb z xs).1 ((same z).1 ((Has-sorted text_leb z ys).0 m)),
      ))
