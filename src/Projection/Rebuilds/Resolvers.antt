-- ===== src/Projection/Rebuilds/Resolvers.antt =====
-- What each resolver says of a cluster is the same for the same facts and the same ids.
use civicpatch_tools.Prelude.{String, ◌≡◌, Bool, List, map, mem, keep, string_eq, option_eq}
use civicpatch_tools.Prelude.Same.{SameElements, sorted-keep_same, mem_same, any_of_same, map_same}
use civicpatch_tools.Prelude.Sort.{sorted}
use civicpatch_tools.Projection.Facts.{
  Claim, ClaimKind, PostKey, SourceRecord, Facts, claim_le, record_le, claim_stamp, record_stamp,
  kind_eq, entity_eq,
}
use civicpatch_tools.Projection.FieldValue.{
  ScalarField, ListField, claims_for, records_for, current_records, scalar_name, list_name,
  scalar_value, Normalizers, list_value,
}
use civicpatch_tools.Projection.Memberships.{
  all_posts_claims, post_claims, post_accepts, claimed_posts, membership_state, membership_claims,
  membership_label_claim, DateField, membership_date, is_edited,
}
use civicpatch_tools.Projection.Names.{name_value, other_names, source_urls}
use civicpatch_tools.Projection.Shared.{Shared}
use civicpatch_tools.Projection.Rebuilds.{Agreeing}

pub claims_kept :
    (p q : Claim → Bool) (a b : Facts)
    → Agreeing a b
    → ((c : Claim) → p c ≡ q c)
    → sorted claim_le (keep p a.claims) ≡ sorted claim_le (keep q b.claims)
unfolding claim_stamp
claims_kept p q a b same agree =
    sorted-keep_same claim_stamp p q a.claims b.claims same.left_once.claims_once
      same.right_once.claims_once agree same.claims_same

pub records_kept :
    (p q : SourceRecord → Bool) (a b : Facts)
    → Agreeing a b
    → ((r : SourceRecord) → p r ≡ q r)
    → sorted record_le (keep p a.records) ≡ sorted record_le (keep q b.records)
unfolding record_stamp
records_kept p q a b same agree =
    sorted-keep_same record_stamp p q a.records b.records same.left_once.records_once
      same.right_once.records_once agree same.records_same

module _ (ms ns : List String) (a b : Facts) (people : SameElements ms ns)
    (same : Agreeing a b) where
  pub claims_for_same :
      (field : String) (kind : ClaimKind) → claims_for ms field kind a ≡ claims_for ns field kind b
  unfolding claims_for
  claims_for_same field kind =
      claims_kept _ _ a b same (λ c. rw (mem_same c.entity_id ms ns people))

  pub records_for_same : records_for ms a ≡ records_for ns b
  unfolding records_for
  records_for_same = records_kept _ _ a b same (λ r. mem_same r.person_id ms ns people)

  pub current_records_same : current_records ms a ≡ current_records ns b
  unfolding current_records
  current_records_same = rw records_for_same

  pub scalar_value_same : (field : ScalarField) → scalar_value ms field a ≡ scalar_value ns field b
  unfolding scalar_value
  scalar_value_same field = rw (
    claims_for_same (scalar_name field) ClaimKind.accept,
    claims_for_same (scalar_name field) ClaimKind.reject,
    current_records_same,
  )

  pub list_value_same :
      (normalizers : Normalizers) (field : ListField)
      → list_value normalizers ms field a ≡ list_value normalizers ns field b
  unfolding list_value
  list_value_same normalizers field = rw (
    claims_for_same (list_name field) ClaimKind.accept,
    claims_for_same (list_name field) ClaimKind.reject,
    current_records_same,
  )

  pub name_value_same : (shared : Shared) → name_value shared ms a ≡ name_value shared ns b
  unfolding name_value
  name_value_same shared = rw (
    claims_for_same "name" ClaimKind.accept,
    claims_for_same "name" ClaimKind.reject,
    records_for_same,
  )

  pub other_names_same : (shared : Shared) → other_names shared ms a ≡ other_names shared ns b
  unfolding other_names
  other_names_same shared = rw (
    claims_for_same "name" ClaimKind.accept,
    claims_for_same "name" ClaimKind.reject,
    claims_for_same "other_names" ClaimKind.accept,
    claims_for_same "other_names" ClaimKind.reject,
    records_for_same,
  )

  pub source_urls_same : source_urls ms a ≡ source_urls ns b
  unfolding source_urls
  source_urls_same = rw current_records_same

  all_posts_claims_same : all_posts_claims ms a ≡ all_posts_claims ns b
  unfolding all_posts_claims
  all_posts_claims_same = claims_kept _ _ a b same (λ c. rw (mem_same c.entity_id ms ns people))

  post_claims_same : (post : PostKey) → post_claims ms post a ≡ post_claims ns post b
  unfolding post_claims
  post_claims_same post = rw all_posts_claims_same

  pub post_accepts_same : (post : PostKey) → post_accepts ms post a ≡ post_accepts ns post b
  unfolding post_accepts
  post_accepts_same post = rw post_claims_same

  pub claimed_posts_same : claimed_posts ms a ≡ claimed_posts ns b
  unfolding claimed_posts
  claimed_posts_same = rw all_posts_claims_same

  pub membership_state_same :
      (post : PostKey) (own_records : List SourceRecord)
      → membership_state ms post own_records a ≡ membership_state ns post own_records b
  unfolding membership_state
  membership_state_same post own_records = rw (post_claims_same, same.reads_same)

  module _ (membership_id : String → String → String) where
    membership_claims_same :
        (post_id field : String)
        → membership_claims membership_id ms post_id field a
          ≡ membership_claims membership_id ns post_id field b
    unfolding membership_claims
    membership_claims_same post_id field = claims_kept _ _ a b same (λ c. rw (
        mem_same c.entity_id (map (λ m. membership_id m post_id) ms)
          (map (λ m. membership_id m post_id) ns)
          (map_same (λ m. membership_id m post_id) ms ns people)))

    pub membership_label_claim_same :
        (post_id : String)
        → membership_label_claim membership_id ms post_id a
          ≡ membership_label_claim membership_id ns post_id b
    unfolding membership_label_claim
    membership_label_claim_same post_id = rw membership_claims_same

    pub membership_date_same :
        (post_id : String) (field : DateField) (own_records : List SourceRecord)
        → membership_date membership_id ms post_id field own_records a
          ≡ membership_date membership_id ns post_id field own_records b
    unfolding membership_date
    membership_date_same post_id field own_records = rw membership_claims_same

    pub is_edited_same :
        (post_ids : List String)
        → is_edited membership_id ms post_ids a ≡ is_edited membership_id ns post_ids b
    unfolding is_edited
    is_edited_same post_ids = simp (
      membership_claims_same,
      any_of_same (λ c. mem c.entity_id ms) (λ c. mem c.entity_id ns) a.claims b.claims
          (λ c. mem_same c.entity_id ms ns people) same.claims_same,
    )
