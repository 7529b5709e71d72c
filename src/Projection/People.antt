-- ===== src/Projection/People.antt =====
-- civicpatch.org/src/core/projection/people.py: one person of the roster, and `first_seen` and
-- `membership_sources` of core/projection/membership_details.py. `none` stands for the error of a
-- `max` or a `min` of nothing.
mod Tests
pub mod Spoken
pub mod Collapse
pub mod Derived
use civicpatch_tools.Prelude.{
  ℕ, String, Bool, true, false, not, Option, none, some, List, [], ◌∷◌, ◌++◌, ◌>>=◌, map, mem, keep,
  any_of, ltb, if◌then◌else◌, string_eq,
}
use civicpatch_tools.Prelude.Equality.{prod_eq}
use civicpatch_tools.Prelude.Dict.{Dict, get, keys, values, group_by, append_to, group_of}
use civicpatch_tools.Prelude.Each.{each, flat_map}
use civicpatch_tools.Prelude.Sort.{sorted, max_from}
use civicpatch_tools.Prelude.Stamp.{Stamp, text_leb, stamp_leb}
use civicpatch_tools.Prelude.Unique.{unique}
use civicpatch_tools.Projection.Facts.{
  Claim, PostKey, post_eq, post_eqb, SourceRecord, Facts, record_le, record_stamp, claim_stamp,
}
use civicpatch_tools.Projection.FieldValue.{ScalarField, ListField, scalar_value, list_value}
use civicpatch_tools.Projection.Memberships.{
  DateField, post_accepts, claimed_posts, membership_state, membership_label_claim, membership_date,
  is_edited,
}
use civicpatch_tools.Projection.History.{MembershipSource, Membership, Person}
use civicpatch_tools.Projection.Roles.{Taxonomy}
use civicpatch_tools.Projection.Posts.{
  MembershipRecords, no_membership_records, earlier_records, records_by_post,
}
use civicpatch_tools.Projection.Names.{name_value, other_names, source_urls}
use civicpatch_tools.Projection.Shared.{Shared}

-- `SourceRecord | Claim`
pub data Fact : Type 0 where
  listed : SourceRecord → Fact
  said : Claim → Fact

-- `latest_first`
unfoldable pub fact_stamp : Fact → Stamp
unfolding record_stamp claim_stamp
fact_stamp (listed r) = record_stamp r
fact_stamp (said c) = claim_stamp c

unfoldable pub fact_created_at : Fact → ℕ
fact_created_at (listed r) = r.created_at
fact_created_at (said c) = c.created_at

-- `min(fact.created_at for fact in facts)`
unfoldable pub first_seen : List Fact → Option ℕ
unfolding max_from fact_created_at
first_seen [] = none
first_seen (f ∷ fs) = some (max_from (λ a b. ltb b a) (fact_created_at f) (map fact_created_at fs))

unfoldable pub membership_sources : List SourceRecord → List MembershipSource
unfolding unique sorted record_stamp stamp_leb text_leb
membership_sources records =
    let pairs : List (String × String) =
      unique (map (λ r. (r.label, r.source_url)) (sorted record_le records)) in
    map (λ pair. record { note = some pair.0; url = some pair.1 }) pairs

abbrev pub is_empty : {A : Type 0} → List A → Bool
is_empty [] = true
is_empty (x ∷ xs) = false

-- `max(posts, key=…)`, of posts with their keys: the first of the greatest.
greatest_post : List (PostKey × Stamp) → Option PostKey
unfolding max_from stamp_leb text_leb
greatest_post [] = none
greatest_post (p ∷ ps) = some (max_from (λ a b. stamp_leb a.1 b.1) p ps).0

-- `by_post[post].records if post in by_post else ()`
unfoldable pub records_of : Dict PostKey MembershipRecords → PostKey → List SourceRecord
unfolding get post_eqb
records_of by_post post = earlier_records (get post by_post)

-- `by_post.get(post, MembershipRecords())`
unfoldable pub evidence_of : Dict PostKey MembershipRecords → PostKey → MembershipRecords
unfolding get post_eqb
evidence_of by_post post = or_none_found (get post by_post)
  where
    or_none_found : Option MembershipRecords → MembershipRecords
    or_none_found none = no_membership_records
    or_none_found (some evidence) = evidence

-- `label_claim.value if label_claim is not None else derived`
claimed_or : Option Claim → Option String → Option String
claimed_or none derived = derived
claimed_or (some c) derived = c.value

-- The latest of the facts, by `latest_first`.
greatest_stamp : List Fact → Option Stamp
unfolding max_from fact_stamp stamp_leb text_leb
greatest_stamp [] = none
greatest_stamp (f ∷ fs) = some (max_from stamp_leb (fact_stamp f) (map fact_stamp fs))

-- `latest_first(_newest_membership_fact(…))`
unfoldable pub newest_membership_fact :
    List String → PostKey → List SourceRecord → Facts → Option Stamp
unfolding greatest_stamp
newest_membership_fact members post own_records facts =
    greatest_stamp (map said (post_accepts members post facts) ++ map listed own_records)

-- One organization's posts: all of them, unless somebody accepted one of them.
unfoldable pub collapse_posts :
    List String → Dict PostKey MembershipRecords → Facts → List PostKey → Option (List PostKey)
unfolding greatest_post each
collapse_posts members by_post facts posts =
    if any_of (λ post. not (is_empty (post_accepts members post facts))) posts
    then (do
      dated ←
          each
            (λ post. do
              newest ← newest_membership_fact members post (records_of by_post post) facts
              some (post, newest))
            posts
      post ← greatest_post dated
      some (post ∷ []))
    else some posts

unfoldable pub collapse_per_organization :
    List String → List PostKey → Dict PostKey MembershipRecords → Facts → Option (List PostKey)
unfolding each
collapse_per_organization members posts by_post facts = do
  kept ←
      each (collapse_posts members by_post facts)
        (values (group_by (λ post. post.organization_id) [] posts))
  some (flat_map (λ organization_posts. organization_posts) kept)

module _ (shared : Shared) where
  abbrev pub post_le : PostKey → PostKey → Bool
  post_le a b = text_leb (shared.post_id a) (shared.post_id b)

  unfoldable pub derive_membership :
      List String → PostKey → MembershipRecords → Facts → Option Membership
  unfolding claimed_or
  derive_membership members post evidence facts = do
    let own_records = evidence.records
    let post_id = shared.post_id post
    opened_at ← first_seen (map listed own_records ++ map said (post_accepts members post facts))
    some (record {
      post = post;
      opened_at = opened_at;
      label =
          claimed_or (membership_label_claim shared.membership_id members post_id facts)
            evidence.details.derived_membership_label;
      start_date =
          membership_date shared.membership_id members post_id DateField.start_date own_records
            facts;
      end_date =
          membership_date shared.membership_id members post_id DateField.end_date own_records facts;
      designations = evidence.details.designations;
      unmatched_text = evidence.details.unmatched_text;
      sources = membership_sources own_records;
      extra_roles = evidence.details.extra_roles;
    })

  module _ (taxonomy : Taxonomy) where
    -- `mine`, by post.
    unfoldable pub own_by_post : List String → Facts → Dict PostKey MembershipRecords
    own_by_post members facts =
        records_by_post shared.parse_label shared.division_ocdid taxonomy
          (keep (λ r. mem r.person_id members) facts.records)

    -- Every post that a record or a claim names, in the order of their ids.
    unfoldable pub candidates : List String → Facts → List PostKey
    candidates members facts =
        sorted post_le (unique (keys (own_by_post members facts) ++ claimed_posts members facts))

    -- Those that the cluster holds.
    unfoldable pub active_posts : List String → Facts → List PostKey
    active_posts members facts =
        keep
          (λ post.
            membership_state members post (records_of (own_by_post members facts) post) facts)
          (candidates members facts)

    -- The person, with these memberships.
    unfoldable pub person_of : String → List String → Facts → List Membership → Person
    person_of person_id members facts memberships = record {
      id = person_id;
      name = name_value shared members facts;
      image = scalar_value members ScalarField.image facts;
      cdn_image = scalar_value members ScalarField.cdn_image facts;
      phones = list_value shared.normalizers members ListField.phones facts;
      emails = list_value shared.normalizers members ListField.emails facts;
      urls = list_value shared.normalizers members ListField.urls facts;
      other_names = other_names shared members facts;
      source_urls = source_urls members facts;
      memberships = memberships;
      edited =
          is_edited shared.membership_id members
            (map (λ post. shared.post_id post) (candidates members facts)) facts;
    }

    unfoldable pub derive_person : String → List String → Facts → Option Person
    derive_person person_id members facts = do
      let by_post = own_by_post members facts
      held ← collapse_per_organization members (active_posts members facts) by_post facts
      memberships ←
          each (λ post. derive_membership members post (evidence_of by_post post) facts)
            (sorted post_le held)
      some (person_of person_id members facts memberships)
