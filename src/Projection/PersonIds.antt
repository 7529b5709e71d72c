-- ===== src/Projection/PersonIds.antt =====
-- civicpatch.org/src/core/projection/person_ids.py, who each record is about, and stale_claims.py,
-- claims that a later read of the page overrules.
mod Tests
pub mod Settled
use civicpatch_tools.Prelude.{
  ℕ, String, Bool, true, false, not, ◌&&◌, Option, none, some, List, [], ◌∷◌, ◌==◌, map, keep, last,
  ltb, if◌then◌else◌, string_eq, option_eq,
}
use civicpatch_tools.Prelude.Sort.{sorted}
use civicpatch_tools.Prelude.Stamp.{stamp_leb, text_leb}
use civicpatch_tools.Projection.Facts.{
  value_id, Claim, ClaimKind, EntityType, SourceRecord, Facts, claim_le, claim_stamp, entity_eq,
  entity_eqb,
}
use civicpatch_tools.Projection.FieldValue.{current_records}
use civicpatch_tools.Projection.Memberships.{posts_field}

abbrev pub person_id_field : String
person_id_field = "person_id"

unfoldable pub claims_about : List Claim → SourceRecord → List Claim
unfolding sorted stamp_leb text_leb claim_stamp entity_eqb
claims_about claims r = sorted claim_le (
    keep
      (λ c.
        c.entity_type == EntityType.source_record
        && (c.entity_id == r.id && c.field_path == some person_id_field))
      claims)

unfoldable pub value_or_own : String → Option Claim → String
value_or_own own none = own
value_or_own own (some c) = value_id c

-- `person_id_of`
unfoldable pub person_id_of : List Claim → SourceRecord → String
unfolding claims_about value_or_own
person_id_of claims r = value_or_own r.person_id (last (claims_about claims r))

-- `record.model_copy(update={"person_id": person_id_of(record)})`
abbrev pub settle : List Claim → SourceRecord → SourceRecord
settle claims r = record r { person_id = person_id_of claims r }

unfoldable pub with_person_ids : Facts → Facts
unfolding person_id_of
with_person_ids facts = record facts { records = map (settle facts.claims) facts.records }

-- `(claim.entity_type, claim.field_path) in TEMPORARY_FIELDS`
abbrev pub is_temporary : Claim → Bool
is_temporary c = c.entity_type == EntityType.person && c.field_path == some posts_field

unfoldable pub stale : ℕ → Claim → Bool
unfolding entity_eqb
stale oldest_read c = is_temporary c && ltb c.created_at oldest_read

-- `min(record.created_at for record in records)`
abbrev pub oldest_of : ℕ → List SourceRecord → ℕ
oldest_of least [] = least
oldest_of least (r ∷ rs) = oldest_of (if ltb r.created_at least then r.created_at else least) rs

unfoldable pub drop_stale : Facts → List SourceRecord → Facts
unfolding stale
drop_stale facts [] = facts
drop_stale facts (r ∷ records) = record facts {
  claims = keep (λ c. not (stale (oldest_of r.created_at records) c)) facts.claims;
}

unfoldable pub without_stale_claims : List String → Facts → Facts
unfolding drop_stale current_records
without_stale_claims members facts = drop_stale facts (current_records members facts)
