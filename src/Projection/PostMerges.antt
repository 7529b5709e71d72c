-- ===== src/Projection/PostMerges.antt =====
-- civicpatch.org/src/core/projection/post_merges.py: which post a deleted post's facts now belong to.
-- A set is a list without repetition. `none` stands for a loop that does not end or a missing key.
use civicpatch_tools.Prelude.{
  ℕ, String, Bool, false, not, ◌&&◌, Option, none, some, List, [], ◌∷◌, ◌++◌, ◌==◌, ◌>>=◌, map,
  keep, if◌then◌else◌, string_eq, option_eq,
}
use civicpatch_tools.Prelude.Equality.{prod_eq}
use civicpatch_tools.Prelude.Dict.{Dict, get, put, put_all, values, group_by, append_to, group_of}
use civicpatch_tools.Prelude.Each.{each, flat_map}
use civicpatch_tools.Prelude.Unique.{unique}
use civicpatch_tools.Projection.Facts.{
  Claim, EntityType, PostKey, post_eq, post_eqb, SourceRecord, Facts, entity_eq, entity_eqb,
}
use civicpatch_tools.Projection.CanonicalIds.{same_as_field, canonical_ids}
use civicpatch_tools.Projection.Memberships.{posts_field}
use civicpatch_tools.Projection.People.{is_empty}
use civicpatch_tools.Projection.Posts.{parse_labels, post_keys, person_batch_key}
use civicpatch_tools.Projection.Roles.{Taxonomy, is_there}
use civicpatch_tools.Projection.Shared.{Shared}

-- `(claim, claim.post)`, if there is a post.
with_post : Claim → Option PostKey → List (Claim × PostKey)
with_post c none = []
with_post c (some post) = (c, post) ∷ []

-- The claims that say into which post another was deleted.
unfoldable pub merge_claims_of : Facts → List (Claim × PostKey)
unfolding with_post entity_eqb
merge_claims_of facts =
    flat_map (λ c. with_post c c.post)
      (keep (λ c. c.entity_type == EntityType.post && c.field_path == some same_as_field)
        facts.claims)

unfoldable pub same_office : PostKey → PostKey → Bool
same_office old target =
    old.role_id == target.role_id && old.division_ocdid == target.division_ocdid

-- The posts that claims name.
unfoldable pub posts_of_claims : List Claim → List PostKey
unfolding with_post
posts_of_claims claims = map (λ pair. pair.1) (flat_map (λ c. with_post c c.post) claims)

-- `claim.entity_id in keys_by_id and _same_office(keys_by_id[claim.entity_id], target)`
is_same_office : Option PostKey → PostKey → Bool
unfolding same_office
is_same_office none target = false
is_same_office (some old) target = same_office old target

-- The organization that a batch's records are read as, for each of their ids.
put_each : String → Dict String String → List SourceRecord → Dict String String
unfolding put
put_each organization_id by_record [] = by_record
put_each organization_id by_record (r ∷ rs) =
    put_each organization_id (put r.id organization_id by_record) rs

move_batch : Option PostKey → List SourceRecord → Dict String String → Dict String String
unfolding put_each
move_batch none batch by_record = by_record
move_batch (some target) batch by_record = put_each target.organization_id by_record batch

-- `record.model_copy(update={"organization_id": …})`, if its id is there.
move_record : SourceRecord → Option String → SourceRecord
move_record r none = r
move_record r (some organization_id) = record r { organization_id = organization_id }

-- `merged_into[claim.post]`, if it is there.
target_of : Dict PostKey PostKey → Option PostKey → Option PostKey
unfolding get post_eqb
target_of merged_into none = none
target_of merged_into (some post) = get post merged_into

-- `claim.model_copy(update={"post": target, "value": target.post_id})`, or else another claim.
moved_claim : Option PostKey → Claim → (PostKey → String) → Claim → Claim
moved_claim none c post_id other = other
moved_claim (some target) c post_id other = record c {
  post = some target;
  value = some (post_id target);
}

rekeyed : Claim → Option String → Claim
rekeyed c none = c
rekeyed c (some id) = record c { entity_id = id }

unfoldable pub person_ids : Facts → List String
unfolding unique entity_eqb
person_ids facts = unique (
    map (λ r. r.person_id) facts.records
    ++ map (λ c. c.entity_id) (keep (λ c. c.entity_type == EntityType.person) facts.claims))

module _ (shared : Shared) (taxonomy : Taxonomy) where
  -- `_known_keys`
  unfoldable pub known_keys : Facts → List PostKey
  unfolding post_keys posts_of_claims unique post_eqb
  known_keys facts = unique (
      post_keys shared.parse_label shared.division_ocdid taxonomy shared.post_id facts.records
      ++ posts_of_claims facts.claims)

  unfoldable pub post_merges : ℕ → Facts → Option (Dict PostKey PostKey)
  unfolding merge_claims_of known_keys put_all is_same_office canonical_ids each get post_eqb
  post_merges fuel facts =
      let merges = merge_claims_of facts in
      let known = map (λ key. (shared.post_id key, key)) (known_keys facts) in
      let targets = map (λ pair. (shared.post_id pair.1, pair.1)) merges in
      let keys_by_id = put_all [] (known ++ targets) in
      let movable =
        map (λ pair. pair.0)
          (keep (λ pair. is_same_office (get pair.0.entity_id keys_by_id) pair.1) merges) in
      if is_empty merges then some [] else (do
        roots ← canonical_ids fuel movable
        pairs ←
            each
              (λ root. do old ← get root.0 keys_by_id; new ← get root.1 keys_by_id; some (old, new))
              roots
        some (put_all [] pairs))

  module _ (merged_into : Dict PostKey PostKey) where
    -- One batch of one person's records from one read; a batch has a record.
    note_batch : Dict String String → List SourceRecord → Dict String String
    unfolding parse_labels move_batch get post_eqb
    note_batch by_record [] = by_record
    note_batch by_record (r ∷ rs) =
        let key = (parse_labels shared.parse_label shared.division_ocdid taxonomy r rs).0 in
        move_batch (get key merged_into) (r ∷ rs) by_record

    note_batches : Dict String String → List (List SourceRecord) → Dict String String
    unfolding note_batch
    note_batches by_record [] = by_record
    note_batches by_record (batch ∷ batches) = note_batches (note_batch by_record batch) batches

    -- `_records_merged`
    unfoldable pub records_merged : List SourceRecord → List SourceRecord
    unfolding note_batches move_record group_by append_to group_of get
    records_merged records =
        let organization_by_record =
          note_batches [] (values (group_by person_batch_key [] records)) in
        map (λ r. move_record r (get r.id organization_by_record)) records

    -- `post_ids`: each deleted post's id, with that of the post it reads as.
    unfoldable pub post_ids_merged : Dict String String
    unfolding put_all
    post_ids_merged = put_all [] (map (λ e. (shared.post_id e.0, shared.post_id e.1)) merged_into)

    unfoldable pub membership_ids_merged : List String → Dict String String
    unfolding put_all post_ids_merged
    membership_ids_merged person_ids = put_all [] (
        flat_map
          (λ person_id.
            map (λ e. (shared.membership_id person_id e.0, shared.membership_id person_id e.1))
              post_ids_merged)
          person_ids)

    -- A `posts` claim on a deleted post, one on a membership of it, one on the post, or any other.
    unfoldable pub claim_merged : Dict String String → Claim → Claim
    unfolding target_of moved_claim rekeyed post_ids_merged entity_eqb get post_eqb
    claim_merged membership_ids c =
        moved_claim
          (if c.field_path == some posts_field then target_of merged_into c.post else none) c
          (shared.post_id)
          (rekeyed c (
            if c.entity_type == EntityType.membership && is_there (get c.entity_id membership_ids)
            then get c.entity_id membership_ids
            else if c.entity_type == EntityType.post && not (c.field_path == some same_as_field)
            then get c.entity_id post_ids_merged
            else none))

    -- `_claims_merged`
    unfoldable pub claims_merged : Facts → List Claim
    unfolding claim_merged membership_ids_merged person_ids
    claims_merged facts = map (claim_merged (membership_ids_merged (person_ids facts))) facts.claims

  unfoldable pub with_post_merges : ℕ → Facts → Option Facts
  unfolding post_merges records_merged claims_merged
  with_post_merges fuel facts = do
    merged_into ← post_merges fuel facts
    some (
        if is_empty merged_into then facts else record facts {
          records = records_merged merged_into facts.records;
          claims = claims_merged merged_into facts;
        })
