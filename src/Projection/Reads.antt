-- ===== src/Projection/Reads.antt =====
-- civicpatch.org/src/core/projection/reads.py: when an organization was last looked at.
mod Tests
pub mod Noted
pub mod Listed
pub mod Times
use civicpatch_tools.Prelude.{
  ℕ, String, Bool, true, false, Option, none, some, List, [], ◌∷◌, ◌==◌, map, mem, if◌then◌else◌,
  string_eq,
}
use civicpatch_tools.Prelude.Dict.{Dict, get, put, has_key}
use civicpatch_tools.Prelude.Sort.{sorted}
use civicpatch_tools.Prelude.Stamp.{Stamp, stamp_leb, text_leb}
use civicpatch_tools.Projection.Facts.{SourceRecord, SourcePage, Facts}

pub record Read : Type 0 where
  pub changeset_id : String
  pub created_at : ℕ

abbrev pub read_stamp : Read → Stamp
read_stamp read = (read.created_at, read.changeset_id)

abbrev pub read_le : Read → Read → Bool
read_le a b = stamp_leb (read_stamp a) (read_stamp b)

-- The loop over the pages: a later page of a changeset replaces its time.
pub note_pages : String → Dict String ℕ → List SourcePage → Dict String ℕ
note_pages organization_id times [] = times
note_pages organization_id times (page ∷ pages) =
    note_pages organization_id
      (if mem organization_id page.organization_ids
        then put page.changeset_id page.created_at times
        else times)
      pages

-- A record counts only if its changeset has no time yet.
pub note_record : SourceRecord → Dict String ℕ → Option ℕ → Dict String ℕ
note_record r times (some time) = times
note_record r times none = put r.changeset_id r.created_at times

-- The loop over the records.
pub note_records : String → Dict String ℕ → List SourceRecord → Dict String ℕ
unfolding note_record
note_records organization_id times [] = times
note_records organization_id times (r ∷ rs) =
    note_records organization_id
      (if r.organization_id == organization_id
        then note_record r times (get r.changeset_id times)
        else times)
      rs

pub time_by_changeset : String → Facts → Dict String ℕ
unfolding note_pages note_records
time_by_changeset organization_id facts =
    note_records organization_id (note_pages organization_id [] facts.reads) facts.records

abbrev pub to_read : String × ℕ → Read
to_read (changeset_id, created_at) = record { changeset_id = changeset_id; created_at = created_at }

unfoldable pub reads_of : String → Facts → List Read
unfolding time_by_changeset sorted stamp_leb text_leb get put
reads_of organization_id facts =
    sorted read_le (map to_read (time_by_changeset organization_id facts))
