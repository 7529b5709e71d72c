-- ===== src/Projection/FieldValue.antt =====
-- civicpatch.org/src/core/projection/field_value.py: what one field of one person says.
-- How a phone and an email are normalised (shared/src/shared/utils/phone_utils.py, email_utils.py)
-- and when two names are the same (name_utils.py) are parameters: they rest on third-party parsers.
-- A set that is only asked for membership is a list.
mod Tests
pub mod Claims
pub mod Current
pub mod Scalar
pub mod Lists
use civicpatch_tools.Prelude.{
  ℕ, String, Bool, true, false, not, ◌&&◌, ◌||◌, Option, none, some, List, [], ◌∷◌, ◌++◌, ◌==◌, map,
  keep, first, last, mem, any_of, if◌then◌else◌, string_eq, option_eq,
}
use civicpatch_tools.Prelude.Dict.{Dict, get, put}
use civicpatch_tools.Prelude.Sort.{sorted}
use civicpatch_tools.Prelude.Stamp.{text_leb, stamp_leb}
use civicpatch_tools.Projection.Facts.{
  Claim, ClaimKind, SourceRecord, Facts, claim_le, record_le, claim_stamp, record_stamp, kind_eq,
  kind_eqb,
}
use mathlib.Core.List.{reverse}

unfoldable pub claims_for : List String → String → ClaimKind → Facts → List Claim
unfolding sorted stamp_leb text_leb claim_stamp kind_eqb
claims_for members field kind facts = sorted claim_le (
    keep (λ c. mem c.entity_id members && (c.field_path == some field && c.kind == kind))
      facts.claims)

unfoldable pub records_for : List String → Facts → List SourceRecord
unfolding sorted stamp_leb text_leb record_stamp
records_for members facts = sorted record_le (keep (λ r. mem r.person_id members) facts.records)

-- The loop that leaves each organization pointing at its newest record's changeset.
newest_changesets : Dict String String → List SourceRecord → Dict String String
newest_changesets newest [] = newest
newest_changesets newest (r ∷ rs) =
    newest_changesets (put r.organization_id r.changeset_id newest) rs

unfoldable pub current_records : List String → Facts → List SourceRecord
unfolding records_for newest_changesets get put
current_records members facts =
    let records = records_for members facts in
    let newest = newest_changesets [] records in
    keep (λ r. some r.changeset_id == get r.organization_id newest) records

-- `not claims or claims[-1].kind != ClaimKind.REJECT`
not_rejected : Option Claim → Bool
not_rejected none = true
not_rejected (some c) = not (c.kind == ClaimKind.reject)

unfoldable pub stands : Option String → List Claim → List Claim → Bool
unfolding not_rejected sorted stamp_leb text_leb claim_stamp kind_eqb
stands value accepts rejects =
    not_rejected (last (sorted claim_le (keep (λ c. c.value == value) (accepts ++ rejects))))

claim_value : Option Claim → Option String
claim_value none = none
claim_value (some c) = c.value

-- `_claimed`
unfoldable pub claimed : List Claim → List Claim → Option String
unfolding stands claim_value
claimed accepts rejects =
    claim_value (first (λ c. stands c.value accepts rejects) (reverse accepts))

-- The keys of `SCALAR_FIELDS` and of `LIST_FIELDS`, with the attribute that each names.
pub data ScalarField : Type 0 where
  image cdn_image : ScalarField

pub data ListField : Type 0 where
  phones emails urls : ListField

abbrev pub scalar_name : ScalarField → String
scalar_name ScalarField.image = "image"
scalar_name ScalarField.cdn_image = "cdn_image"

abbrev pub scalar_attribute : ScalarField → SourceRecord → Option String
scalar_attribute ScalarField.image r = r.image
scalar_attribute ScalarField.cdn_image r = r.cdn_image

abbrev pub list_name : ListField → String
list_name ListField.phones = "phones"
list_name ListField.emails = "emails"
list_name ListField.urls = "urls"

abbrev pub list_attribute : ListField → SourceRecord → Option String
list_attribute ListField.phones r = r.phone
list_attribute ListField.emails r = r.email
list_attribute ListField.urls r = r.url

-- `value is not None and stands(value, …)`, else on to the next record.
value_or : (String → Bool) → Option String → Option String → Option String
value_or value_stands none rest = rest
value_or value_stands (some v) rest = if value_stands v then some v else rest

-- The first record, newest first, whose value stands.
scalar_from_records :
    (SourceRecord → Option String) → (String → Bool) → List SourceRecord → Option String
unfolding value_or
scalar_from_records attribute value_stands [] = none
scalar_from_records attribute value_stands (r ∷ rs) =
    value_or value_stands (attribute r) (scalar_from_records attribute value_stands rs)

-- A claimed value if there is one, else what the records say.
unfoldable pub or_else : Option String → Option String → Option String
or_else (some v) other = some v
or_else none other = other

unfoldable pub scalar_value : List String → ScalarField → Facts → Option String
unfolding or_else claimed scalar_from_records current_records claims_for
scalar_value members field facts =
    let accepts = claims_for members (scalar_name field) ClaimKind.accept facts in
    let rejects = claims_for members (scalar_name field) ClaimKind.reject facts in
    or_else (claimed accepts rejects) (
      scalar_from_records (scalar_attribute field) (λ v. stands (some v) accepts rejects)
        (reverse (current_records members facts)))

-- The loop that appends each value which is there, stands, and is new.
collect : (String → Bool) → List String → List (Option String) → List String
collect value_stands values [] = values
collect value_stands values (none ∷ rest) = collect value_stands values rest
collect value_stands values (some v ∷ rest) =
    collect value_stands (if value_stands v && not (mem v values) then values ++ v ∷ [] else values)
      rest

-- `RECORD_NORMALIZERS`: phones and emails are normalised, urls are not.
pub record Normalizers : Type 0 where
  pub phone : String → Option String
  pub email : String → Option String

module _ (normalizers : Normalizers) where
  pub normalized : ListField → Option String → Option String
  normalized field none = none
  normalized ListField.phones (some v) = normalizers.phone v
  normalized ListField.emails (some v) = normalizers.email v
  normalized ListField.urls (some v) = some v

  unfoldable pub list_value : List String → ListField → Facts → List String
  unfolding collect normalized current_records claims_for stands
  list_value members field facts =
      let accepts = claims_for members (list_name field) ClaimKind.accept facts in
      let rejects = claims_for members (list_name field) ClaimKind.reject facts in
      let from_records =
        map (λ r. normalized field (list_attribute field r)) (current_records members facts) in
      let from_claims = map (λ c. c.value) accepts in
      collect (λ v. stands (some v) accepts rejects) [] (from_records ++ from_claims)

unfoldable pub without_claims : Facts → Facts
without_claims facts = record facts { claims = [] }
