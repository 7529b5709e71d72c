-- ===== src/Projection/Partial/Filled.antt =====
-- A group of records, filled one after the other, and what its loop writes down.
use civicpatch_tools.Prelude.{
  String, ◌≡◌, ◌⊎◌, inl, inr, refl, sym, ap, ◌∙◌, Bool, true, false, none, some, List, [], ◌∷◌,
  ◌++◌, ◌==◌, map, Has, Has-append, Has-map, Distinct, Bool-cases, mem, mem_iff, eq_of_eqb,
  eqb_refl, if◌then◌else◌, string_eq,
}
use civicpatch_tools.Prelude.Equality.{prod_eq}
use civicpatch_tools.Prelude.Dict.{Dict, get, put, get-put_self, get-put_ne}
use civicpatch_tools.Prelude.Sort.{sorted, Has-sorted}
use civicpatch_tools.Projection.Facts.{SourceRecord, record_le}
use civicpatch_tools.Projection.Partial.{
  Carried, nothing_carried, inherit, stated, carried_into, fill, rewrite_group, rewrite_groups,
  blank_text, blank_cell, blank_list,
}

pub map_own :
    {A : Type 0} (f : A → A) (xs : List A) → ((x : A) → Has x xs → f x ≡ x) → map f xs ≡ xs
map_own f [] own = refl
map_own f (x ∷ xs) own = rw (own x (inl refl), map_own f xs (λ y m. own y (inr m)))

pub map_congr :
    {A : Type 0} (f g : A → A) (xs : List A)
    → ((x : A) → Has x xs → f x ≡ g x)
    → map f xs ≡ map g xs
map_congr f g [] same = refl
map_congr f g (x ∷ xs) same = rw (same x (inl refl), map_congr f g xs (λ y m. same y (inr m)))

fill_whole : (c : Carried) (r : SourceRecord) → r.is_partial ≡ false → fill c r ≡ r
unfolding fill
fill_whole c r e = rw e

pub fill_partial :
    (c : Carried) (r : SourceRecord) → r.is_partial ≡ true → fill c r ≡ carried_into r c
unfolding fill
fill_partial c r e = ap (λ b. if b then carried_into r c else r) e

fill-id : (c : Carried) (r : SourceRecord) → (fill c r).id ≡ r.id
unfolding fill carried_into
fill-id c r = elim (Bool-cases r.is_partial) [ inl t ↦ rw t refl | inr f ↦ rw f refl ]

inherit_nothing : {A : Type 0} (blank : A → Bool) (own : A) → inherit blank own none ≡ own
inherit_nothing blank own = elim (Bool-cases (blank own)) [ inl t ↦ rw t refl | inr f ↦ rw f refl ]

carried_into_nothing : (r : SourceRecord) → carried_into r nothing_carried ≡ r
unfolding carried_into
carried_into_nothing r = rw (
  inherit_nothing blank_text r.label,
  inherit_nothing blank_list r.other_names,
  inherit_nothing blank_cell r.url,
  inherit_nothing blank_cell r.phone,
  inherit_nothing blank_cell r.email,
  inherit_nothing blank_cell r.image,
  inherit_nothing blank_cell r.cdn_image,
  inherit_nothing blank_cell r.start_date,
  inherit_nothing blank_cell r.end_date,
)

fill_nothing_when :
    (partial : Bool) (r : SourceRecord)
    → (if partial then carried_into r nothing_carried else r) ≡ r
fill_nothing_when true r = carried_into_nothing r
fill_nothing_when false r = refl

-- The first record of a seat has nothing to inherit.
pub fill_nothing : (r : SourceRecord) → fill nothing_carried r ≡ r
unfolding fill
fill_nothing r = fill_nothing_when r.is_partial r

-- What a record becomes when its group is filled one after the other.
unfoldable pub filled_in : Carried → List SourceRecord → SourceRecord → SourceRecord
filled_in c [] r = r
filled_in c (g ∷ gs) r =
    let rest = filled_in (stated (fill c g)) gs r in if g.id == r.id then fill c g else rest

-- No id stands twice.
abbrev pub KnownById : List SourceRecord → Type 0
KnownById gs = Distinct gs × ((a b : SourceRecord) → Has a gs → Has b gs → a.id ≡ b.id → a ≡ b)

KnownById-tail : (g : SourceRecord) (gs : List SourceRecord) → KnownById (g ∷ gs) → KnownById gs
KnownById-tail g gs (d, same) = (d.1, λ a b m n. same a b (inr m) (inr n))

-- The first record's id is not that of a later one.
KnownById-apart :
    (g r : SourceRecord) (gs : List SourceRecord)
    → KnownById (g ∷ gs)
    → Has r gs
    → (g.id == r.id) ≡ false
KnownById-apart g r gs (d, same) m = elim (Bool-cases (g.id == r.id)) [
  | inl t ↦
      let q = same g r (inl refl) (inr m) (eq_of_eqb g.id r.id t) in absurd (d.0 (rw (sym q) at m))
  | inr f ↦ f
]

pub filled_in_whole :
    (c : Carried) (gs : List SourceRecord) (r : SourceRecord)
    → KnownById gs
    → Has r gs
    → r.is_partial ≡ false
    → filled_in c gs r ≡ r
unfolding filled_in
filled_in_whole c [] r k m e = absurd m
filled_in_whole c (g ∷ gs) r k (inl q) e = rw (← q, eqb_refl r.id) (fill_whole c r e)
filled_in_whole c (g ∷ gs) r k (inr m) e =
    rw (KnownById-apart g r gs k m)
      (filled_in_whole (stated (fill c g)) gs r (KnownById-tail g gs k) m e)

pub filled_in_next :
    (c : Carried) (before after : List SourceRecord) (p r : SourceRecord)
    → KnownById (before ++ p ∷ r ∷ after)
    → filled_in c (before ++ p ∷ r ∷ after) r
      ≡ fill (stated (filled_in c (before ++ p ∷ r ∷ after) p)) r
unfolding filled_in
filled_in_next c [] after p r k =
    rw (KnownById-apart p r (r ∷ after) k (inl refl), eqb_refl r.id, eqb_refl p.id)
filled_in_next c (b ∷ before) after p r k =
    let n =
      KnownById-apart b r (before ++ p ∷ r ∷ after) k
        ((Has-append r before (p ∷ r ∷ after)).1 (inr (inr (inl refl)))) in
    let o =
      KnownById-apart b p (before ++ p ∷ r ∷ after) k
        ((Has-append p before (p ∷ r ∷ after)).1 (inr (inl refl))) in
    rw (n, o)
      (filled_in_next (stated (fill c b)) before after p r
        (KnownById-tail b (before ++ p ∷ r ∷ after) k))

-- The group's loop writes down each of its records.
get-rewrite_group_other :
    (c : Carried) (gs : List SourceRecord) (id : String) (rewritten : Dict String SourceRecord)
    → ¬ Has id (map (λ r. r.id) gs)
    → get id (rewrite_group c rewritten gs) ≡ get id rewritten
unfolding rewrite_group
get-rewrite_group_other c [] id rewritten n = refl
get-rewrite_group_other c (g ∷ gs) id rewritten n =
    get-rewrite_group_other (stated (fill c g)) gs id _ (λ m. n (inr m))
    ∙ get-put_ne (fill c g).id id (fill c g) rewritten (λ q. n (inl (sym q ∙ fill-id c g)))

pub get-rewrite_group :
    (c : Carried) (gs : List SourceRecord) (r : SourceRecord) (rewritten : Dict String SourceRecord)
    → KnownById gs
    → Has r gs
    → get r.id (rewrite_group c rewritten gs) ≡ some (filled_in c gs r)
unfolding rewrite_group filled_in
get-rewrite_group c [] r rewritten k m = absurd m
get-rewrite_group c (g ∷ gs) r rewritten k (inl q) =
    rw (q, eqb_refl g.id)
      (get-rewrite_group_other (stated (fill c g)) gs g.id _ (λ m.
          let (x, n, e) = (Has-map (λ (r : SourceRecord). r.id) gs).0 m in
          k.0.0 (rw (sym (k.1 g x (inl refl) (inr n) e)) at n))
        ∙ ap (λ id. get id (put (fill c g).id (fill c g) rewritten)) (sym (fill-id c g))
        ∙ get-put_self (fill c g).id (fill c g) rewritten)
get-rewrite_group c (g ∷ gs) r rewritten k (inr m) =
    rw (KnownById-apart g r gs k m)
      (get-rewrite_group (stated (fill c g)) gs r _ (KnownById-tail g gs k) m)

module _ (k : String) (v : SourceRecord) where
  -- Every group that writes at the key writes this value, and one does, or it stands there already.
  pub get-rewrite_groups :
      (groups : List (List SourceRecord)) (rewritten : Dict String SourceRecord)
      → ((g : List SourceRecord) (d : Dict String SourceRecord)
          → Has g groups
          → Has k (map (λ r. r.id) g)
          → get k (rewrite_group nothing_carried d (sorted record_le g)) ≡ some v)
      → (get k rewritten ≡ some v)
        ⊎ ((g : List SourceRecord) × Has g groups × Has k (map (λ r. r.id) g))
      → get k (rewrite_groups rewritten groups) ≡ some v
  unfolding rewrite_groups
  get-rewrite_groups [] rewritten writes (inl e) = e
  get-rewrite_groups [] rewritten writes (inr (g, m, n)) = absurd m
  get-rewrite_groups (g ∷ groups) rewritten writes found =
      get-rewrite_groups groups _ (λ x d m n. writes x d (inr m) n)
        (elim (Bool-cases (mem k (map (λ r. r.id) g))) [
          | inl t ↦ inl (writes g rewritten (inl refl) ((mem_iff k (map (λ r. r.id) g)).0 t))
          | inr f ↦
              let absent : ¬ Has k (map (λ r. r.id) g) =
                λ m. (let t = (mem_iff k (map (λ r. r.id) g)).1 m in cc) in
              elim found [
                | inl e ↦ inl (
                    get-rewrite_group_other nothing_carried (sorted record_le g) k rewritten
                      (λ m. absent (ids_sorted g m))
                    ∙ e)
                | inr (x, m, n) ↦ elim m [
                  | inl q ↦ absurd (absent (rw q at n))
                  | inr later ↦ inr (x, later, n)
                ]
              ]
        ])
    where
      ids_sorted :
          (g : List SourceRecord)
          → Has k (map (λ r. r.id) (sorted record_le g))
          → Has k (map (λ r. r.id) g)
      ids_sorted g m =
          let (x, n, e) = (Has-map (λ (r : SourceRecord). r.id) (sorted record_le g)).0 m in
          (Has-map (λ (r : SourceRecord). r.id) g).1 (x, (Has-sorted record_le x g).0 n, e)
