-- ===== src/Projection/PersonIds/Tests.antt =====
-- A record moved to another person, and a post claim that the page has since answered.
use civicpatch_tools.Prelude.{String, ◌≡◌, refl, [], ◌∷◌, map}
use civicpatch_tools.Projection.Facts.{SourceRecord, Claim, ClaimKind, EntityType, Facts}
use civicpatch_tools.Projection.Samples.{no_facts, person_claim, scraped}
use civicpatch_tools.Projection.Memberships.{posts_field}
use civicpatch_tools.Projection.PersonIds.{with_person_ids, without_stale_claims}
use civicpatch_tools.Projection.PersonIds.Settled.{
  IsSettled, with_person_ids_lem, ClaimsKept, without_stale_claims-ClaimsKept,
}

abbrev moved : Claim
moved = record (person_claim "c1" 5 "r1" "person_id" ClaimKind.accept "q") {
  entity_type = EntityType.source_record;
}

abbrev held : Claim
held = person_claim "c2" 3 "p" posts_field ClaimKind.accept "post"

abbrev facts : Facts
facts = record no_facts {
  records = scraped "r1" "s1" 4 "p" "council" "Ann Lee" ∷ [];
  claims = moved ∷ held ∷ [];
}

with_person_ids-moved :
    (with_person_ids facts).records ≡ scraped "r1" "s1" 4 "q" "council" "Ann Lee" ∷ []
unfolding with_person_ids
with_person_ids-moved = refl

without_stale_claims-held : (without_stale_claims ("p" ∷ []) facts).claims ≡ moved ∷ []
unfolding without_stale_claims
without_stale_claims-held = refl

with_person_ids_lem_example :
    (who : SourceRecord → String) × (with_person_ids facts ≡ record facts {
      records = map (λ (r : SourceRecord). record r { person_id = who r }) facts.records;
    })
    × ((r : SourceRecord) → IsSettled facts.claims r (who r))
with_person_ids_lem_example = with_person_ids_lem facts

without_stale_claims-ClaimsKept_example : ClaimsKept ("p" ∷ []) facts held
without_stale_claims-ClaimsKept_example = without_stale_claims-ClaimsKept ("p" ∷ []) facts held
