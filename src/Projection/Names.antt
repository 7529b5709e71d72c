-- ===== src/Projection/Names.antt =====
-- The names of a person: `name_value`, `other_names`, `source_urls` and `overridden_source_values` of
-- civicpatch.org/src/core/projection/field_value.py, and how ingest picks a name: `merge_field` and
-- `most_common_name` of core/people_derivation.py.
use civicpatch_tools.Prelude.{
  ℕ, suc, String, Bool, false, not, ◌&&◌, ◌||◌, Option, none, some, List, [], ◌∷◌, ◌++◌, ◌==◌, map,
  keep, any_of, leb, if◌then◌else◌, string_eq, nat_eq, option_eq,
}
use civicpatch_tools.Prelude.Equality.{list_eq}
use civicpatch_tools.Prelude.Dict.{Dict}
use civicpatch_tools.Prelude.Sort.{sorted, max_from}
use civicpatch_tools.Prelude.Stamp.{text_leb}
use civicpatch_tools.Prelude.Unique.{unique}
use civicpatch_tools.Projection.Facts.{ClaimKind, Facts}
use civicpatch_tools.Projection.FieldValue.{
  ScalarField, ListField, scalar_name, list_name, claims_for, records_for, current_records, stands,
  claimed, or_else, scalar_value, list_value, without_claims,
}
use civicpatch_tools.Prelude.Each.{flat_map}
use civicpatch_tools.Projection.Posts.{or_none}
use civicpatch_tools.Projection.Shared.{Shared}

-- `Counter(values)[value]`
abbrev pub count : String → List String → ℕ
count value [] = 0
count value (v ∷ vs) = let rest = count value vs in if v == value then suc rest else rest

-- `max(counts)`
unfoldable pub most : List ℕ → ℕ
unfolding max_from
most [] = 0
most (n ∷ ns) = max_from leb n ns

-- `values[0]`, or nothing to choose from.
unfoldable pub first_or_blank : List String → String
first_or_blank [] = ""
first_or_blank (v ∷ vs) = v

unfoldable pub merge_field : List String → String
unfolding most first_or_blank unique sorted text_leb
merge_field values =
    let filled = keep (λ v. not (v == "")) values in
    let max_count = most (map (λ v. count v filled) (unique filled)) in
    first_or_blank (sorted text_leb (keep (λ v. count v filled == max_count) (unique filled)))

unfoldable pub source_urls : List String → Facts → List String
unfolding current_records unique sorted text_leb
source_urls members facts =
    sorted text_leb (unique (map (λ r. r.source_url) (current_records members facts)))

-- A value that differs from the page's own: a text, or a list of them.
pub data PageValue : Type 0 where
  text : Option String → PageValue
  texts : List String → PageValue

module _ (shared : Shared) where
  unfoldable pub most_common_name : List String → String
  unfolding merge_field
  most_common_name names =
      let winner = merge_field (map shared.name_comparison_key names) in
      let spellings = keep (λ name. shared.name_comparison_key name == winner) names in
      merge_field (map shared.strip_titles_and_credentials spellings)

  unfoldable pub name_value : List String → Facts → Option String
  unfolding or_else or_none most_common_name claimed claims_for records_for stands
  name_value members facts =
      let accepts = claims_for members "name" ClaimKind.accept facts in
      let rejects = claims_for members "name" ClaimKind.reject facts in
      let names =
        map (λ r. r.name)
          (keep (λ r. stands (some r.name) accepts rejects) (records_for members facts)) in
      or_else (claimed accepts rejects) (or_none (most_common_name names))

  -- `published and same_name(name, published)`
  unfoldable pub is_published : Option String → String → Bool
  is_published none name = false
  is_published (some published) name = not (published == "") && shared.same_name name published

  -- The loop that keeps a spelling unless there is none, or it is empty, the published name, rejected,
  -- or kept before.
  unfoldable pub keep_spellings :
      Option String → (String → Bool) → List String → List (Option String) → List String
  unfolding is_published
  keep_spellings published name_stands kept [] = kept
  keep_spellings published name_stands kept (none ∷ names) =
      keep_spellings published name_stands kept names
  keep_spellings published name_stands kept (some name ∷ names) =
      keep_spellings published name_stands
        (if name == ""
            || (is_published published name
                || (not (name_stands name) || any_of (λ k. shared.same_name name k) kept))
          then kept
          else kept ++ name ∷ [])
        names

  unfoldable pub other_names : List String → Facts → List String
  unfolding keep_spellings name_value claims_for records_for stands sorted text_leb
  other_names members facts =
      let accepts = claims_for members "other_names" ClaimKind.accept facts in
      let rejects = claims_for members "other_names" ClaimKind.reject facts in
      let published = name_value members facts in
      let seen =
        map some (flat_map (λ r. r.name ∷ r.other_names) (records_for members facts))
        ++ map (λ c. c.value) accepts in
      sorted text_leb
        (keep_spellings published (λ name. stands (some name) accepts rejects) [] seen)

  unfoldable pub differing_text : String → Option String → Option String → Dict String PageValue
  differing_text field evidence value =
      if evidence == value then [] else (field, text evidence) ∷ []

  unfoldable pub differing_texts : String → List String → List String → Dict String PageValue
  differing_texts field evidence value =
      if evidence == value then [] else (field, texts evidence) ∷ []

  -- What the page says of each field where a claim says something else.
  unfoldable pub overridden_source_values : List String → Facts → Dict String PageValue
  unfolding differing_text differing_texts name_value scalar_value list_value without_claims
  overridden_source_values members facts =
      let page = without_claims facts in
      let scalar = λ (field : ScalarField).
        differing_text (scalar_name field) (scalar_value members field page)
          (scalar_value members field facts) in
      let listed = λ (field : ListField).
        differing_texts (list_name field) (list_value shared.normalizers members field page)
          (list_value shared.normalizers members field facts) in
      differing_text "name" (name_value members page) (name_value members facts)
      ++ (scalar ScalarField.image
          ++ (scalar ScalarField.cdn_image
              ++ (listed ListField.phones ++ (listed ListField.emails ++ listed ListField.urls))))
