-- ===== src/Projection/Town.antt =====
-- A town that the tests run on: a council, an agency, a parser that knows two roles, and ids that can
-- be read.
use Prim.Native.String.{◌++◌ as ◌⧺◌}
use civicpatch_tools.Prelude.{String, ◌==◌, none, some, List, [], ◌∷◌, string_eq, if◌then◌else◌}
use civicpatch_tools.Projection.Facts.{SourceRecord, Claim, ClaimKind, PostKey, Facts}
use civicpatch_tools.Projection.Roles.{ParsedLabel, Taxonomy, SelectionMethod}
use civicpatch_tools.Projection.Shared.{Shared}
use civicpatch_tools.Projection.Samples.{scraped, person_claim}

abbrev pub named_roles : String → List String
named_roles label =
    if label == "Mayor" then "Mayor" ∷ [] else if label == "Clerk" then "Clerk" ∷ [] else []

abbrev pub parse : String → ParsedLabel
parse label = record {
  role = none;
  roles = named_roles label;
  division = none;
  divisions = [];
  other_designations = [];
  unmatched = [];
}

abbrev pub shared : Shared
shared = record {
  parse_label = parse;
  division_ocdid = λ parsed. "town";
  post_id = λ post. ◌⧺◌ post.organization_id post.role_id;
  membership_id = λ person post. ◌⧺◌ person post;
  normalizers = record { phone = λ v. some v; email = λ v. some v };
  name_comparison_key = λ name. name;
  strip_titles_and_credentials = λ name. name;
  same_name = λ a b. a == b;
}

abbrev pub taxonomy : Taxonomy
taxonomy = record {
  role_aliases = [];
  designation_aliases = [];
  role_priority = ("Mayor", 0) ∷ ("Clerk", 1) ∷ [];
  designation_priority = [];
  role_ids = ("Mayor", "mayor") ∷ ("Clerk", "clerk") ∷ [];
  role_labels = ("mayor", "Mayor") ∷ ("clerk", "Clerk") ∷ [];
  selection_methods =
      ("Mayor", SelectionMethod.elected_by_voters) ∷ ("Clerk", SelectionMethod.appointed) ∷ [];
  unique_roles = "Mayor" ∷ [];
}

abbrev pub mayor : PostKey
mayor = record { organization_id = "council"; role_id = "mayor"; division_ocdid = "town" }

abbrev pub clerk : PostKey
clerk = record { organization_id = "council"; role_id = "clerk"; division_ocdid = "town" }

abbrev pub ann_as_mayor : SourceRecord
ann_as_mayor = scraped "r1" "s1" 10 "ann" "council" "Ann Lee"

abbrev pub bob_as_mayor : SourceRecord
bob_as_mayor = scraped "r2" "s1" 10 "bob" "agency" "Bob Ray"

-- A human puts Ann in the clerk's post of the council, after the page listed her as its mayor.
abbrev pub ann_as_clerk : Claim
ann_as_clerk = record (person_claim "c1" 20 "ann" "posts" ClaimKind.accept "councilclerk") {
  post = some clerk;
}

abbrev pub facts : Facts
facts = record {
  records = ann_as_mayor ∷ bob_as_mayor ∷ [];
  claims = ann_as_clerk ∷ [];
  withdraws = [];
  reads = [];
}

-- The same, as another query lists them.
abbrev pub facts_again : Facts
facts_again = record {
  records = bob_as_mayor ∷ ann_as_mayor ∷ [];
  claims = ann_as_clerk ∷ [];
  withdraws = [];
  reads = [];
}
