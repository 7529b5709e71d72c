-- ===== src/Projection/Diff/Same.antt =====
-- When two rosters do not differ.
use civicpatch_tools.Prelude.{
  String, ◌≡◌, ◌↔◌, ◌≢◌, inl, inr, refl, ap, Bool, true, false, ◌&&◌, Option, none, some, List, [],
  ◌∷◌, Has, Has-keep, Has-map, HasEq, Bool-cases, Option-cases, arith, option_eqb_iff, string_eq,
}
use civicpatch_tools.Prelude.Equality.{prod_eq, list_eqb_iff}
use civicpatch_tools.Prelude.Dict.{Dict, keys, get, has_key, Has-keys_of_get}
use civicpatch_tools.Prelude.Each.{flat_map, Has-flat_map}
use civicpatch_tools.Prelude.Groups.{get-of_key}
use civicpatch_tools.Prelude.Sort.{sorted, Has-sorted}
use civicpatch_tools.Prelude.Stamp.{text_leb}
use civicpatch_tools.Projection.Facts.{PostKey}
use civicpatch_tools.Projection.History.{Roster}
use civicpatch_tools.Projection.Diff.{
  Value, text, texts, sources_list, value_eqb, source_eq, is_nil, empty, keys_only, keys_both,
  differing, PersonField, MembershipField, field_of, membership_field_of, compared_fields,
  compared_membership_fields, field_difference, membership_field_difference, people_by_id,
  memberships_by_key, pair_leb, roster_diff, person_differences, membership_differences,
}

value_eqb_iff : (a b : Value) → (value_eqb a b ≡ true) ↔ (a ≡ b)
unfolding value_eqb
value_eqb_iff (text a) (text b) =
    ((λ h. ap text ((option_eqb_iff a b).0 h)), λ e. (option_eqb_iff a b).1 (cc))
value_eqb_iff (texts a) (texts b) =
    ((λ h. ap texts ((list_eqb_iff a b).0 h)), λ e. (list_eqb_iff a b).1 (cc))
value_eqb_iff (sources_list a) (sources_list b) =
    ((λ h. ap sources_list ((list_eqb_iff a b).0 h)), λ e. (list_eqb_iff a b).1 (cc))
value_eqb_iff (text a) (texts b) = (λ h. cc, λ h. cc)
value_eqb_iff (text a) (sources_list b) = (λ h. cc, λ h. cc)
value_eqb_iff (texts a) (text b) = (λ h. cc, λ h. cc)
value_eqb_iff (texts a) (sources_list b) = (λ h. cc, λ h. cc)
value_eqb_iff (sources_list a) (text b) = (λ h. cc, λ h. cc)
value_eqb_iff (sources_list a) (texts b) = (λ h. cc, λ h. cc)

nil_iff : {A : Type 0} (xs : List A) → (is_nil xs ≡ true) ↔ ((x : A) → ¬ Has x xs)
nil_iff [] = (λ h x m. m, λ h. refl)
nil_iff (x ∷ xs) = (λ h. absurd (cc), λ h. absurd (h x (inl refl)))

and_iff : (a b : Bool) → ((a && b) ≡ true) ↔ ((a ≡ true) × (b ≡ true))
and_iff a b = ground arith

module _ {K V : Type 0} ⦃e : HasEq K⦄ where
  has_key-of_some : (k : K) (v : V) (d : Dict K V) → get k d ≡ some v → has_key k d ≡ true
  has_key-of_some k v d q = rw (q, has_key)

  has_key-of_none : (k : K) (d : Dict K V) → get k d ≡ none → has_key k d ≡ false
  has_key-of_none k d q = rw (q, has_key)

  key-of_some : (k : K) (v : V) (d : Dict K V) → get k d ≡ some v → Has k (keys d)
  key-of_some k v d q = (Has-map (λ (x : K × V). x.0) d).1 ((k, v), Has-keys_of_get k v d q, refl)

  -- No key of `b` is missing from `d`, said of the entry under one key.
  only_iff :
      (le : K → K → Bool) (b d : Dict K V)
      → (is_nil (sorted le (keys_only b d)) ≡ true)
        ↔ ((k : K) (v : V) → get k b ≡ some v → get k d ≢ none)
  only_iff le b d = (
    λ h k v q n. (nil_iff (sorted le (keys_only b d))).0 h k (
        (Has-sorted le k (keys_only b d)).1
          ((Has-keep _ k (keys b)).1 (key-of_some k v b q, rw (has_key-of_none k d n)))),
    λ h. (nil_iff (sorted le (keys_only b d))).1 (λ k m.
        let (in_b, gone) = (Has-keep _ k (keys b)).0 ((Has-sorted le k (keys_only b d)).0 m) in
        let (v, q) = get-of_key k b in_b in
        elim (Option-cases (get k d)) [
          | inl n ↦ h k v q n
          | inr (w, s) ↦ cc (has_key-of_some k w d s, gone)
        ]),
  )

-- Neither has an entry under a key, or both have and these agree on every field.
module _ {V F : Type 0} (at : F → V → Value) where
  abbrev pub SameEntry : Option V → Option V → Type 0
  SameEntry none none = Unit
  SameEntry (some x) (some y) = (f : F) → at f x ≡ at f y
  SameEntry none (some y) = ⊥
  SameEntry (some x) none = ⊥

module _ {K V F D : Type 0} ⦃e : HasEq K⦄ (at : F → V → Value)
    (difference : K → F → Value → Value → D) (fields : List F) (all_fields : (f : F) → Has f fields)
    (le : K → K → Bool) (a b : Dict K V) where
  differing_nil :
      (k : K) (x y : V)
      → (is_nil (differing at (difference k) fields (some x) (some y)) ≡ true)
        ↔ ((f : F) → at f x ≡ at f y)
  unfolding differing
  differing_nil k x y = (
    λ h f. elim (Bool-cases (value_eqb (at f x) (at f y))) [
      | inl t ↦ (value_eqb_iff (at f x) (at f y)).0 t
      | inr n ↦ absurd (
          (nil_iff _).0 h (difference k f (at f x) (at f y)) (
            (Has-map (λ g. difference k g (at g x) (at g y)) _).1
              (f, (Has-keep _ f fields).1 (all_fields f, rw n), refl)))
    ],
    λ h. (nil_iff _).1 (λ d m.
        let (f, k', q) = (Has-map (λ g. difference k g (at g x) (at g y)) _).0 m in
        cc (((Has-keep _ f fields).0 k').1, (value_eqb_iff (at f x) (at f y)).1 (h f))),
  )

  SameEntry-nil :
      (k : K) (o p : Option V)
      → SameEntry at o p
      → is_nil (differing at (difference k) fields o p) ≡ true
  unfolding differing
  SameEntry-nil k none none s = refl
  SameEntry-nil k (some x) (some y) s = (differing_nil k x y).1 s
  SameEntry-nil k none (some y) s = absurd s
  SameEntry-nil k (some x) none s = absurd s

  -- The same keys, and the same fields under each.
  abbrev pub SameEntries : Type 0
  SameEntries = (k : K) → SameEntry at (get k a) (get k b)

  abbrev differences : List D
  differences =
      flat_map (λ k. differing at (difference k) fields (get k a) (get k b))
        (sorted le (keys_both a b))

  differences_nil :
      (k : K) (x y : V)
      → is_nil differences ≡ true
      → get k a ≡ some x
      → get k b ≡ some y
      → (f : F) → at f x ≡ at f y
  differences_nil k x y h p q = (differing_nil k x y).0 (
      (nil_iff _).1 (λ d m. (nil_iff differences).0 h d (
        (Has-flat_map _ d (sorted le (keys_both a b))).1 (
          k,
          (Has-sorted le k (keys_both a b)).1
              ((Has-keep _ k (keys a)).1 (key-of_some k x a p, has_key-of_some k y b q)),
          rw (p, q) m,
        ))))

  same_entries_iff :
      ((is_nil (sorted le (keys_only a b)) ≡ true)
        × (is_nil (sorted le (keys_only b a)) ≡ true)
        × (is_nil differences ≡ true))
      ↔ SameEntries
  same_entries_iff = (
    λ (h, g, d) k. elim (Option-cases (get k a)) [
      | inl p ↦ elim (Option-cases (get k b)) [
        | inl q ↦ rw (p, q) tt
        | inr (y, q) ↦ absurd ((only_iff le b a).0 g k y q p)
      ]
      | inr (x, p) ↦ elim (Option-cases (get k b)) [
        | inl q ↦ absurd ((only_iff le a b).0 h k x p q)
        | inr (y, q) ↦ rw (p, q) (differences_nil k x y d p q)
      ]
    ],
    λ same. (
      (only_iff le a b).1 (λ k v q n. rw (q, n) at (same k)),
      (only_iff le b a).1 (λ k v q n. rw (n, q) at (same k)),
      (nil_iff differences).1 (λ d m.
          let (k, j, n) = (Has-flat_map _ d (sorted le (keys_both a b))).0 m in
          (nil_iff _).0 (SameEntry-nil k (get k a) (get k b) (same k)) d n),
    ),
  )

all_person_fields : (f : PersonField) → Has f compared_fields
all_person_fields PersonField.name = inl refl
all_person_fields PersonField.other_names = inr (inl refl)
all_person_fields PersonField.phones = inr (inr (inl refl))
all_person_fields PersonField.emails = inr (inr (inr (inl refl)))
all_person_fields PersonField.urls = inr (inr (inr (inr (inl refl))))
all_person_fields PersonField.source_urls = inr (inr (inr (inr (inr (inl refl)))))
all_person_fields PersonField.image = inr (inr (inr (inr (inr (inr (inl refl))))))
all_person_fields PersonField.cdn_image = inr (inr (inr (inr (inr (inr (inr (inl refl)))))))

all_membership_fields : (f : MembershipField) → Has f compared_membership_fields
all_membership_fields MembershipField.label = inl refl
all_membership_fields MembershipField.start_date = inr (inl refl)
all_membership_fields MembershipField.end_date = inr (inr (inl refl))
all_membership_fields MembershipField.sources = inr (inr (inr (inl refl)))

module _ (post_id : PostKey → String) where
  -- Two rosters have the same people, who agree on every compared field, and the same memberships,
  -- which do.
  abbrev pub Agree : Roster → Roster → Type 0
  Agree before after =
      ((person_id : String)
        → SameEntry field_of (get person_id (people_by_id before))
            (get person_id (people_by_id after)))
      × ((key : String × String)
          → SameEntry membership_field_of
              (get key (memberships_by_key post_id (people_by_id before)))
              (get key (memberships_by_key post_id (people_by_id after))))

  -- A diff is empty if and only if the two rosters have the same people and the same memberships,
  -- and these agree on every field that is compared.
  pub roster_diff-empty :
      (before after : Roster)
      → (empty (roster_diff post_id before after) ≡ true) ↔ Agree before after
  unfolding empty roster_diff person_differences membership_differences
  roster_diff-empty before after =
      let people =
        same_entries_iff field_of field_difference compared_fields all_person_fields text_leb
          (people_by_id before) (people_by_id after) in
      let memberships =
        same_entries_iff membership_field_of membership_field_difference compared_membership_fields
          all_membership_fields pair_leb (memberships_by_key post_id (people_by_id before))
          (memberships_by_key post_id (people_by_id after)) in
      (
        λ h.
            let (a, h₁) = (and_iff _ _).0 h in
            let (b, h₂) = (and_iff _ _).0 h₁ in
            let (c, h₃) = (and_iff _ _).0 h₂ in
            let (d, h₄) = (and_iff _ _).0 h₃ in
            let (f, g) = (and_iff _ _).0 h₄ in (people.0 (a, b, c), memberships.0 (d, f, g)),
        λ (p, m).
            let (a, b, c) = people.1 p in
            let (d, f, g) = memberships.1 m in
            (and_iff _ _).1 (
              a,
              (and_iff _ _).1 (b, (and_iff _ _).1 (c, (and_iff _ _).1 (d, (and_iff _ _).1 (f, g)))),
            ),
      )
