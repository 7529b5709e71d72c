-- ===== src/Projection/Reads/Tests.antt =====
-- Two reads of a council, one of them by a page row that came before its records.
use civicpatch_tools.Prelude.{◌≡◌, refl, inl, some, [], ◌∷◌}
use civicpatch_tools.Projection.Facts.{Facts, SourceRecord}
use civicpatch_tools.Projection.Samples.{no_facts, scraped}
use civicpatch_tools.Projection.Reads.{Read, reads_of}
use civicpatch_tools.Projection.Reads.Listed.{ReadsListed, reads_of_lem, reads_of-last}
use civicpatch_tools.Prelude.{last}

abbrev ann : SourceRecord
ann = scraped "r1" "s1" 4 "p" "council" "Ann Lee"

abbrev facts : Facts
facts = record no_facts {
  records =
      ann ∷ scraped "r2" "s2" 3 "q" "council" "Bo" ∷ scraped "r3" "s3" 9 "q" "school" "Bo" ∷ [];
  reads =
      record { id = "g1"; changeset_id = "s1"; created_at = 2; organization_ids = "council" ∷ [] }
      ∷ [];
}

reads_of-council :
    reads_of "council" facts
    ≡ record { changeset_id = "s1"; created_at = 2 }
      ∷ record { changeset_id = "s2"; created_at = 3 }
      ∷ []
unfolding reads_of
reads_of-council = refl

reads_of_lem_example : ReadsListed "council" facts (reads_of "council" facts)
reads_of_lem_example = reads_of_lem "council" facts

reads_of-last_example : (read : Read) × (last (reads_of "council" facts) ≡ some read)
reads_of-last_example = reads_of-last "council" facts ann (inl refl) refl
