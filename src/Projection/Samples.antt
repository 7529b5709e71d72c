-- ===== src/Projection/Samples.antt =====
-- Small facts that the tests run on.
use civicpatch_tools.Prelude.{ℕ, String, false, none, some, []}
use civicpatch_tools.Projection.Facts.{SourceRecord, Claim, ClaimKind, EntityType, Facts}

abbrev pub no_facts : Facts
no_facts = record { records = []; claims = []; withdraws = []; reads = [] }

-- A claim of changeset "k" about a person.
abbrev pub person_claim : String → ℕ → String → String → ClaimKind → String → Claim
person_claim id at entity_id field kind value = record {
  id = id;
  changeset_id = "k";
  created_at = at;
  entity_type = EntityType.person;
  entity_id = entity_id;
  field_path = some field;
  kind = kind;
  value = some value;
  post = none;
}

abbrev pub same_as : String → ℕ → String → String → Claim
same_as id at from to = person_claim id at from "same_as" ClaimKind.accept to

abbrev pub withdraw_of : String → ℕ → String → Claim
withdraw_of id at fact_id = record {
  id = id;
  changeset_id = "k";
  created_at = at;
  entity_type = EntityType.claim;
  entity_id = fact_id;
  field_path = none;
  kind = ClaimKind.withdraw;
  value = none;
  post = none;
}

-- A record that a scrape read of one person in one organization.
abbrev pub scraped : String → String → ℕ → String → String → String → SourceRecord
scraped id changeset_id at person_id organization_id name = record {
  id = id;
  changeset_id = changeset_id;
  created_at = at;
  person_id = person_id;
  organization_id = organization_id;
  name = name;
  label = "Mayor";
  source_url = "https://town.gov";
  other_names = [];
  url = none;
  phone = none;
  email = none;
  image = none;
  cdn_image = none;
  start_date = none;
  end_date = none;
  is_partial = false;
}
