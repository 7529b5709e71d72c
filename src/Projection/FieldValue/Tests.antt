-- ===== src/Projection/FieldValue/Tests.antt =====
-- Fields of one person read twice, with claims about them.
use civicpatch_tools.Prelude.{◌≡◌, inl, inr, refl, some, List, [], ◌∷◌}
use civicpatch_tools.Projection.Facts.{Claim, ClaimKind, SourceRecord, Facts}
use civicpatch_tools.Projection.Samples.{no_facts, person_claim, scraped}
use civicpatch_tools.Projection.FieldValue.{
  ScalarField, ListField, Normalizers, current_records, scalar_value, list_value,
}
use civicpatch_tools.Projection.FieldValue.Current.{HasNewestRead, current_records_lem}
use civicpatch_tools.Projection.FieldValue.Scalar.{ScalarCases, scalar_value_cases}
use civicpatch_tools.Projection.FieldValue.Lists.{ListsOffered, list_value_lem}

abbrev old : SourceRecord
old = record (scraped "r1" "s1" 1 "p" "council" "Ann Lee") {
  phone = some "1";
  image = some "a.png";
}

abbrev new : SourceRecord
new = record (scraped "r2" "s2" 5 "p" "council" "Ann Lee") {
  phone = some "2";
  image = some "b.png";
}

abbrev claims : List Claim
claims =
    person_claim "c3" 7 "p" "phones" ClaimKind.accept "3"
    ∷ person_claim "c2" 6 "p" "phones" ClaimKind.reject "2"
    ∷ []

abbrev facts : Facts
facts = record no_facts { records = new ∷ old ∷ []; claims = claims }

abbrev verbatim : Normalizers
verbatim = record { phone = λ v. some v; email = λ v. some v }

current_records-facts : current_records ("p" ∷ []) facts ≡ new ∷ []
unfolding current_records
current_records-facts = refl

list_value-phones : list_value verbatim ("p" ∷ []) ListField.phones facts ≡ "3" ∷ []
unfolding list_value
list_value-phones = refl

scalar_value-image : scalar_value ("p" ∷ []) ScalarField.image facts ≡ some "b.png"
unfolding scalar_value
scalar_value-image = refl

current_records_lem_example : HasNewestRead ("p" ∷ []) facts "council"
current_records_lem_example = current_records_lem ("p" ∷ []) facts old (inr (inl refl), inl refl)

scalar_value_cases_example : ScalarCases ("p" ∷ []) ScalarField.image facts
scalar_value_cases_example = scalar_value_cases ("p" ∷ []) ScalarField.image facts

list_value_lem_example :
    ListsOffered verbatim
      ("p" ∷ [])
      ListField.phones
      facts
      (list_value verbatim ("p" ∷ []) ListField.phones facts)
list_value_lem_example = list_value_lem verbatim ("p" ∷ []) ListField.phones facts
