-- ===== src/PostDeletion/Allowed.antt =====
-- What a deletion that is not refused may do, and what the projection takes.
use civicpatch_tools.Prelude.{
  ◌≡◌, ◌≢◌, ◌↔◌, true, none, ◌==◌, arith, Bool-cases, inl, inr, refl, eqb_of_eq, eq_of_eqb,
  ne_of_eqb, string_eq,
}
use civicpatch_tools.Projection.PostMerges.{same_office}
use civicpatch_tools.PostDeletion.{Post, key_of, merge_refusal}

-- A deletion is not refused if and only if the posts are two, of one jurisdiction and of two
-- organizations, and are what the projection calls the same office.
pub merge_refusal_lem :
    (post into : Post)
    → (merge_refusal post into ≡ none) ↔ (
        (post.id ≢ into.id)
        × (post.jurisdiction_ocdid ≡ into.jurisdiction_ocdid)
        × (post.organization_id ≢ into.organization_id)
        × (same_office (key_of post) (key_of into) ≡ true))
unfolding merge_refusal same_office
merge_refusal_lem post into = (
  λ h. (
    ne_of_eqb post.id into.id (ground (arith, h)),
    eq_of_eqb post.jurisdiction_ocdid into.jurisdiction_ocdid (ground (arith, h)),
    ne_of_eqb post.organization_id into.organization_id (ground (arith, h)),
    ground (arith, h),
  ),
  λ (n, j, o, t). elim (Bool-cases (post.id == into.id)) [
    | inl same ↦ absurd (n (eq_of_eqb post.id into.id same))
    | inr other ↦ elim (Bool-cases (post.organization_id == into.organization_id)) [
      | inl same ↦ absurd (o (eq_of_eqb post.organization_id into.organization_id same))
      | inr apart ↦
          rw (other, eqb_of_eq post.jurisdiction_ocdid into.jurisdiction_ocdid j, apart, t) refl
    ]
  ],
)
