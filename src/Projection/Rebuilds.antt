-- ===== src/Projection/Rebuilds.antt =====
-- When two loads of one jurisdiction's facts are the same facts: the order in which a query returns
-- them is not part of what they say. A changeset's time of a read is that of the first record or of the
-- last page row listed, so these have to have one time.
mod Tests
pub mod Times
pub mod Resolvers
pub mod People
pub mod Rosters
use civicpatch_tools.Prelude.{String, ◌≡◌, map, Distinct, Has}
use civicpatch_tools.Prelude.Same.{SameElements}
use civicpatch_tools.Projection.Facts.{SourceRecord, SourcePage, Facts}
use civicpatch_tools.Projection.Reads.{reads_of}

-- No id stands twice.
pub record IdsOnce (facts : Facts) : Type 0 where
  pub records_once : Distinct (map (λ r. r.id) facts.records)
  pub claims_once : Distinct (map (λ c. c.id) facts.claims)

-- The records that a changeset files of one organization have one time, and so have the page rows that
-- it files: they are written at once.
pub record IsWrittenAtOnce (facts : Facts) : Type 0 where
  pub records_at_once :
      (r s : SourceRecord)
      → Has r facts.records
      → Has s facts.records
      → r.changeset_id ≡ s.changeset_id
      → r.organization_id ≡ s.organization_id
      → r.created_at ≡ s.created_at
  pub pages_at_once :
      (p q : SourcePage)
      → Has p facts.reads
      → Has q facts.reads
      → p.changeset_id ≡ q.changeset_id
      → p.created_at ≡ q.created_at

-- The same records, claims and page rows, in whatever order.
pub record SameFacts (a b : Facts) : Type 0 where
  pub same_records : SameElements a.records b.records
  pub same_claims : SameElements a.claims b.claims
  pub same_pages : SameElements a.reads b.reads
  pub once : IdsOnce a
  pub once_too : IdsOnce b
  pub at_once : IsWrittenAtOnce a

-- The same records and claims, and the same reads of each organization.
pub record Agreeing (a b : Facts) : Type 0 where
  pub records_same : SameElements a.records b.records
  pub claims_same : SameElements a.claims b.claims
  pub reads_same :
      (organization_id : String) → reads_of organization_id a ≡ reads_of organization_id b
  pub left_once : IdsOnce a
  pub right_once : IdsOnce b
