-- ===== src/Placement/Only.antt =====
-- Where a record goes if the model picks no organization: the only one that will do.
use civicpatch_tools.Prelude.{
  String, ◌≡◌, ◌≢◌, ◌↔◌, ◌⊎◌, inl, inr, refl, sym, ap, ◌∙◌, Bool, true, Option, none, some, List,
  [], ◌∷◌, ◌==◌, map, mem, keep, Has, Has-map, Has-keep, Distinct, Distinct-keep, Bool-cases,
  Option-cases, eq_of_eqb, ne_of_eqb, string_eq,
}
use civicpatch_tools.Prelude.Same.{Distinct-map-keep}
use civicpatch_tools.Projection.Roles.{or_default, ParsedLabel, Taxonomy}
use civicpatch_tools.Projection.Posts.{member_role_id, or_text}
use civicpatch_tools.Placement.{
  PlaceableOrganization, sole, lists, lists_one, ids_where, placed_by_roles, label_roles,
  placed_organization_id,
}

-- The id is one of these, and they are all the same.
abbrev pub IsOnly : List String → String → Type 0
IsOnly ids id = Has id ids × ((other : String) → Has other ids → other ≡ id)

sole_iff : (ids : List String) → Distinct ids → (id : String) → (sole ids ≡ some id) ↔ IsOnly ids id
unfolding sole
sole_iff [] d id = (λ e. absurd (cc), λ h. absurd h.0)
sole_iff (x ∷ []) d id = (
  λ e. (
    let q : id ≡ x = cc in inl q,
    λ other m. elim m [ inl q ↦ (let r : other ≡ id = cc in r) | inr w ↦ absurd w ],
  ),
  λ h. ap some (h.1 x (inl refl)),
)
sole_iff (x ∷ y ∷ ids) d id =
    (λ e. absurd (cc), λ h. absurd (d.0 (inl (h.1 x (inl refl) ∙ sym (h.1 y (inr (inl refl)))))))

-- An organization's id is among those for which a test holds.
Has-ids_where :
    (test : PlaceableOrganization → Bool) (organizations : List PlaceableOrganization) (id : String)
    → Has id (ids_where test organizations)
      ↔ ((o : PlaceableOrganization) × Has o organizations × (test o ≡ true) × (id ≡ o.id))
Has-ids_where test organizations id = (
  λ m.
      let (o, n, e) =
        (Has-map (λ (o : PlaceableOrganization). o.id) (keep test organizations)).0 m in
      let (k, t) = (Has-keep test o organizations).0 n in (o, k, t, e),
  λ (o, k, t, e).
      (Has-map (λ (o : PlaceableOrganization). o.id) (keep test organizations)).1
        (o, (Has-keep test o organizations).1 (k, t), e),
)

module _ (organizations : List PlaceableOrganization) (default : String) (held : List String)
    (once : Distinct (map (λ o. o.id) organizations)) where
  Distinct-ids_where :
      (test : PlaceableOrganization → Bool) → Distinct (ids_where test organizations)
  Distinct-ids_where test =
      Distinct-map-keep (λ (o : PlaceableOrganization). o.id) test organizations once

  -- Where the form, and then the person's own posts, say that a record belongs.
  abbrev pub IsPlaced : String → List String → String → Type 0
  IsPlaced role_id named id =
      let listing = ids_where (lists role_id) organizations in
      let own = keep (λ id. mem id held) (ids_where (lists_one named) organizations) in
      ((role_id ≢ member_role_id) × IsOnly listing id)
      ⊎ ((role_id ≡ member_role_id ⊎ ((other : String) → ¬ IsOnly listing other))
          × (IsOnly own id ⊎ ((id ≡ default) × ((other : String) → ¬ IsOnly own other))))

  placed_by_own :
      (own : List String)
      → Distinct own
      → IsOnly own (or_default default (sole own))
        ⊎ ((or_default default (sole own) ≡ default) × ((other : String) → ¬ IsOnly own other))
  placed_by_own own d = elim (Option-cases (sole own)) [
    | inl e ↦ inr (rw e refl, λ other h. let f = (sole_iff own d other).1 h in absurd (cc))
    | inr (id, e) ↦ inl (rw e ((sole_iff own d id).0 e))
  ]

  placed_by_roles_lem :
      (role_id : String) (named : List String)
      → IsPlaced role_id named (placed_by_roles organizations default held (some role_id) named)
  unfolding placed_by_roles
  placed_by_roles_lem role_id named =
      let listing = ids_where (lists role_id) organizations in
      let own = keep (λ id. mem id held) (ids_where (lists_one named) organizations) in
      let rest = placed_by_own own (Distinct-keep _ _ (Distinct-ids_where (lists_one named))) in
      let d = Distinct-ids_where (lists role_id) in
      elim (Bool-cases (role_id == member_role_id)) [
        | inl t ↦ rw t (inr (inl (eq_of_eqb role_id member_role_id t), rest))
        | inr f ↦ rw f (elim (Option-cases (sole listing)) [
          | inl e ↦
              rw e
                (inr (inr (λ other h. let k = (sole_iff listing d other).1 h in absurd (cc)), rest))
          | inr (id, e) ↦
              rw e (inl (ne_of_eqb role_id member_role_id f, (sole_iff listing d id).0 e))
        ])
      ]

  -- The same, of a label that names no role too.
  abbrev pub IsPlacedFor : Option String → List String → String → Type 0
  IsPlacedFor none named id = id ≡ default
  IsPlacedFor (some role_id) named id = IsPlaced role_id named id

  placed_for :
      (role_id : Option String) (named : List String)
      → IsPlacedFor role_id named (placed_by_roles organizations default held role_id named)
  unfolding placed_by_roles
  placed_for none named = refl
  placed_for (some role_id) named = placed_by_roles_lem role_id named

  module _ (parse_label : String → ParsedLabel) (division_ocdid : ParsedLabel → String)
      (taxonomy : Taxonomy) where
    -- If the organizations' ids are distinct, a record goes where the model picked, if it picked.
    -- Else a label with no post role goes to the default; a role that is not `member` and that only
    -- one organization's form lists goes to that one; and any other to the only organization that
    -- lists a role the label names and where the person holds a post, or, with none or several of
    -- these, to the default.
    pub placed_organization_id_lem :
        (label picked : String)
        → (picked ≢ ""
            → placed_organization_id parse_label division_ocdid taxonomy label
                (some picked)
                organizations
                default
                held
              ≡ picked)
          × IsPlacedFor
              (label_roles parse_label division_ocdid taxonomy label).post_role_id
              (label_roles parse_label division_ocdid taxonomy label).named_role_ids
              (placed_organization_id parse_label division_ocdid taxonomy label none organizations
                default held)
    unfolding placed_organization_id or_text
    placed_organization_id_lem label picked = (
      λ n. elim (Bool-cases (picked == "")) [
        | inl t ↦ absurd (n (eq_of_eqb picked "" t))
        | inr f ↦ rw f
      ],
      placed_for (label_roles parse_label division_ocdid taxonomy label).post_role_id
          (label_roles parse_label division_ocdid taxonomy label).named_role_ids,
    )
