-- ===== src/Projection/Memberships.antt =====
-- civicpatch.org/src/core/projection/memberships.py: which posts a cluster holds, and what has been
-- said about holding them. `membership_id` (shared/src/shared/utils/membership_ids.py), a hash, is a
-- parameter. A set of members is a list.
mod Tests
pub mod Holding
use civicpatch_tools.Prelude.{
  ℕ, String, Bool, true, false, not, ◌&&◌, ◌||◌, Option, none, some, List, [], ◌∷◌, ◌==◌, map, mem,
  keep, last, any_of, ltb, if◌then◌else◌, string_eq, option_eq,
}
use civicpatch_tools.Prelude.Sort.{sorted}
use civicpatch_tools.Prelude.Stamp.{stamp_leb, text_leb}
use civicpatch_tools.Projection.Facts.{
  Claim, ClaimKind, EntityType, PostKey, SourceRecord, Facts, claim_le, claim_stamp, record_le,
  record_stamp, kind_eq, kind_eqb, entity_eq, post_eq, post_eqb, entity_eqb,
}
use civicpatch_tools.Projection.Reads.{Read, reads_of}

-- `POSTS_FIELD` of core/people_edits.py
abbrev pub posts_field : String
posts_field = "posts"

-- `_posts_claims`, oldest first.
unfoldable pub all_posts_claims : List String → Facts → List Claim
unfolding sorted stamp_leb text_leb claim_stamp entity_eqb
all_posts_claims members facts = sorted claim_le (
    keep
      (λ c.
        c.entity_type == EntityType.person
        && (mem c.entity_id members && c.field_path == some posts_field))
      facts.claims)

unfoldable pub post_claims : List String → PostKey → Facts → List Claim
unfolding all_posts_claims post_eqb
post_claims members post facts = keep (λ c. c.post == some post) (all_posts_claims members facts)

unfoldable pub post_accepts : List String → PostKey → Facts → List Claim
unfolding post_claims kind_eqb
post_accepts members post facts =
    keep (λ c. c.kind == ClaimKind.accept) (post_claims members post facts)

listed_in : List SourceRecord → Option Read → Bool
listed_in own_records none = false
listed_in own_records (some read) = any_of (λ r. r.changeset_id == read.changeset_id) own_records

-- The newest claim is a reject, and the organization has not been read since.
bars : Option Claim → Option Read → Bool
bars none last_read = false
bars (some newest) none = true
bars (some newest) (some last_read) = not (ltb newest.created_at last_read.created_at)

is_accept : Option Claim → Bool
unfolding kind_eqb
is_accept none = false
is_accept (some c) = c.kind == ClaimKind.accept

decide_by_page : List SourceRecord → Option Claim → Option Read → Bool
unfolding listed_in bars
decide_by_page [] newest last_read = false
decide_by_page (r ∷ own_records) newest last_read =
    if bars newest last_read then false else listed_in (r ∷ own_records) last_read

-- `reads_of(…)[-1]` fails on no reads, and there is one wherever there are records of a fact file.
unfoldable pub membership_state : List String → PostKey → List SourceRecord → Facts → Bool
unfolding post_claims reads_of is_accept decide_by_page
membership_state members post own_records facts =
    let newest = last (post_claims members post facts) in
    let last_read = last (reads_of post.organization_id facts) in
    if is_accept newest then true else decide_by_page own_records newest last_read

some_posts : List (Option PostKey) → List PostKey
some_posts [] = []
some_posts (none ∷ posts) = some_posts posts
some_posts (some post ∷ posts) = post ∷ some_posts posts

-- Posts that a human named for this cluster, of either kind.
unfoldable pub claimed_posts : List String → Facts → List PostKey
unfolding all_posts_claims some_posts
claimed_posts members facts = some_posts (map (λ c. c.post) (all_posts_claims members facts))

pub data DateField : Type 0 where
  start_date end_date : DateField

abbrev pub date_name : DateField → String
date_name DateField.start_date = "start_date"
date_name DateField.end_date = "end_date"

abbrev pub date_of : DateField → SourceRecord → Option String
date_of DateField.start_date r = r.start_date
date_of DateField.end_date r = r.end_date

-- The last record that has the date, oldest first.
last_dated : DateField → Option String → List SourceRecord → Option String
last_dated field date [] = date
last_dated field date (r ∷ rs) = last_dated field (or_before (date_of field r) date) rs
  where
    or_before : Option String → Option String → Option String
    or_before none before = before
    or_before (some d) before = some d

accepted_or : Option Claim → Option String → Option String
accepted_or none dated = dated
accepted_or (some c) dated = c.value

module _ (membership_id : String → String → String) where
  unfoldable pub membership_claims : List String → String → String → Facts → List Claim
  unfolding sorted stamp_leb text_leb claim_stamp entity_eqb
  membership_claims members post_id field facts =
      let ids = map (λ m. membership_id m post_id) members in
      sorted claim_le (
        keep
          (λ c.
            c.entity_type == EntityType.membership
            && (mem c.entity_id ids && c.field_path == some field))
          facts.claims)

  unfoldable pub membership_label_claim : List String → String → Facts → Option Claim
  unfolding membership_claims kind_eqb
  membership_label_claim members post_id facts =
      last
        (keep (λ c. c.kind == ClaimKind.accept) (membership_claims members post_id "label" facts))

  -- The latest accept's value, else the latest record's that has one.
  unfoldable pub membership_date :
      List String → String → DateField → List SourceRecord → Facts → Option String
  unfolding membership_claims last_dated accepted_or record_stamp kind_eqb
  membership_date members post_id field own_records facts =
      accepted_or
        (last (
          keep (λ c. c.kind == ClaimKind.accept)
            (membership_claims members post_id (date_name field) facts)))
        (last_dated field none (sorted record_le own_records))

  -- Whether a human has touched this cluster or any of its memberships.
  unfoldable pub is_edited : List String → List String → Facts → Bool
  unfolding membership_claims
  is_edited members post_ids facts =
      any_of (λ c. mem c.entity_id members) facts.claims
      || any_of
          (λ post_id.
            any_of (λ field. is_some (last (membership_claims members post_id field facts)))
              ("label" ∷ "start_date" ∷ "end_date" ∷ []))
          post_ids
    where
      is_some : Option Claim → Bool
      is_some none = false
      is_some (some c) = true
