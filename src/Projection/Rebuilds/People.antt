-- ===== src/Projection/Rebuilds/People.antt =====
-- A person is derived alike from the same facts and the same ids.
use civicpatch_tools.Prelude.{String, ◌≡◌, refl, sym, ◌∙◌, List, [], ◌∷◌, mem, string_eq, not}
use mathlib.Core.Path.{fun_ext}
use civicpatch_tools.Prelude.Dict.{Dict}
use civicpatch_tools.Prelude.Same.{SameElements, mem_same, keep_same, Distinct-map-keep}
use civicpatch_tools.Projection.Facts.{Claim, PostKey, SourceRecord, Facts}
use civicpatch_tools.Projection.FieldValue.{current_records}
use civicpatch_tools.Projection.PersonIds.{without_stale_claims, drop_stale, stale, oldest_of}
use civicpatch_tools.Projection.Reads.{reads_of}
use civicpatch_tools.Projection.History.{Membership}
use civicpatch_tools.Projection.Roles.{Taxonomy}
use civicpatch_tools.Projection.Posts.{MembershipRecords, records_by_post}
use civicpatch_tools.Projection.Shared.{Shared}
use civicpatch_tools.Projection.People.{
  own_by_post, candidates, active_posts, newest_membership_fact, collapse_posts,
  collapse_per_organization, derive_membership, person_of, derive_person,
}
use civicpatch_tools.Projection.Rebuilds.{Agreeing}
use civicpatch_tools.Projection.Rebuilds.Resolvers.{
  records_kept, scalar_value_same, list_value_same, name_value_same, other_names_same,
  source_urls_same, post_accepts_same, claimed_posts_same, membership_state_same,
  membership_label_claim_same, membership_date_same, is_edited_same, current_records_same,
}

module _ (shared : Shared) (taxonomy : Taxonomy) (ms ns : List String) (a b : Facts)
    (people : SameElements ms ns) (same : Agreeing a b) where
  own_by_post_same : own_by_post shared taxonomy ms a ≡ own_by_post shared taxonomy ns b
  unfolding own_by_post records_by_post
  own_by_post_same = rw (
      records_kept (λ r. mem r.person_id ms) (λ r. mem r.person_id ns) a b same
        (λ r. mem_same r.person_id ms ns people))

  candidates_same : candidates shared taxonomy ms a ≡ candidates shared taxonomy ns b
  unfolding candidates
  candidates_same = rw (own_by_post_same, claimed_posts_same ms ns a b people same)

  active_posts_same : active_posts shared taxonomy ms a ≡ active_posts shared taxonomy ns b
  unfolding active_posts
  active_posts_same =
      simp (membership_state_same ms ns a b people same, own_by_post_same, candidates_same)

  newest_membership_fact_same :
      (post : PostKey) (own_records : List SourceRecord)
      → newest_membership_fact ms post own_records a ≡ newest_membership_fact ns post own_records b
  unfolding newest_membership_fact
  newest_membership_fact_same post own_records = rw (post_accepts_same ms ns a b people same)

  collapse_posts_same :
      (by_post : Dict PostKey MembershipRecords) (posts : List PostKey)
      → collapse_posts ms by_post a posts ≡ collapse_posts ns by_post b posts
  unfolding collapse_posts
  collapse_posts_same by_post posts =
      simp (post_accepts_same ms ns a b people same, newest_membership_fact_same)

  collapse_same :
      (posts : List PostKey) (by_post : Dict PostKey MembershipRecords)
      → collapse_per_organization ms posts by_post a ≡ collapse_per_organization ns posts by_post b
  unfolding collapse_per_organization
  collapse_same posts by_post = rw (fun_ext (collapse_posts_same by_post))

  derive_membership_same :
      (post : PostKey) (evidence : MembershipRecords)
      → derive_membership shared ms post evidence a ≡ derive_membership shared ns post evidence b
  unfolding derive_membership
  derive_membership_same post evidence = simp (
    post_accepts_same ms ns a b people same,
    membership_label_claim_same ms ns a b people same shared.membership_id,
    membership_date_same ms ns a b people same shared.membership_id,
  )

  person_of_same :
      (person_id : String) (memberships : List Membership)
      → person_of shared taxonomy person_id ms a memberships
        ≡ person_of shared taxonomy person_id ns b memberships
  unfolding person_of
  person_of_same person_id memberships = simp (
    scalar_value_same ms ns a b people same,
    list_value_same ms ns a b people same,
    name_value_same ms ns a b people same,
    other_names_same ms ns a b people same,
    source_urls_same ms ns a b people same,
    is_edited_same ms ns a b people same,
    candidates_same,
  )

  -- Deriving a person from the same facts, in whatever order they are listed, and the same ids, in
  -- whatever order, gives the same person.
  pub derive_person_same :
      (person_id : String)
      → derive_person shared taxonomy person_id ms a ≡ derive_person shared taxonomy person_id ns b
  unfolding derive_person
  derive_person_same person_id =
      simp
        (own_by_post_same, active_posts_same, collapse_same, derive_membership_same, person_of_same)

-- Claims say nothing of reads.
reads_of_claims :
    (organization_id : String) (facts : Facts) (claims : List Claim)
    → reads_of organization_id (record facts { claims = claims }) ≡ reads_of organization_id facts
unfolding reads_of
reads_of_claims organization_id facts claims = refl

module _ (ms ns : List String) (a b : Facts) (people : SameElements ms ns)
    (same : Agreeing a b) where
  pub without_stale_claims-Agreeing :
      Agreeing (without_stale_claims ms a) (without_stale_claims ns b)
  unfolding without_stale_claims
  without_stale_claims-Agreeing =
      rw (current_records_same ms ns a b people same) (dropped (current_records ns b))
    where
      dropped :
          (records : List SourceRecord) → Agreeing (drop_stale a records) (drop_stale b records)
      dropped [] = unfold drop_stale in same
      dropped (r ∷ records) =
          unfold drop_stale in
          record {
            records_same = same.records_same;
            claims_same =
                keep_same (λ c. not (stale (oldest_of r.created_at records) c))
                  (λ c. not (stale (oldest_of r.created_at records) c)) a.claims b.claims
                  (λ c. refl) same.claims_same;
            reads_same =
                λ o. reads_of_claims o a _ ∙ same.reads_same o ∙ sym (reads_of_claims o b _);
            left_once = record {
              records_once = same.left_once.records_once;
              claims_once =
                  Distinct-map-keep (λ (c : Claim). c.id) _ a.claims same.left_once.claims_once;
            };
            right_once = record {
              records_once = same.right_once.records_once;
              claims_once =
                  Distinct-map-keep (λ (c : Claim). c.id) _ b.claims same.right_once.claims_once;
            };
          }
