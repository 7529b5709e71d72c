-- ===== src/Projection/Partial.antt =====
-- civicpatch.org/src/core/projection/partial_records.py: a partial record states only the cells it
-- filled, so its blanks keep the last stated value. The dictionary from an inherited field's name to
-- its value is a record with an optional value for each field.
mod Tests
pub mod Filled
pub mod Seats
use Prim.Native.Char.{code}
use civicpatch_tools.Prelude.{
  ℕ, String, Bool, true, false, not, ◌&&◌, ◌||◌, Option, none, some, List, [], ◌∷◌, map, any_of,
  leb, nat_eqb, if◌then◌else◌, string_eq,
}
use civicpatch_tools.Prelude.Equality.{prod_eq}
use civicpatch_tools.Prelude.Dict.{Dict, get, put, values, group_by, append_to, group_of}
use civicpatch_tools.Prelude.Sort.{sorted}
use civicpatch_tools.Prelude.Stamp.{stamp_leb, text_leb}
use civicpatch_tools.Projection.Facts.{SourceRecord, Facts, record_le, record_stamp}
use civicpatch_tools.Projection.Roles.{or_default}

-- What `str.strip` takes off: Unicode's white space.
is_space : ℕ → Bool
is_space c =
    (leb 9 c && leb c 13)
    || ((leb 28 c && leb c 32)
        || (nat_eqb c 133
            || (nat_eqb c 160
                || (nat_eqb c 5760
                    || ((leb 8192 c && leb c 8202)
                        || (nat_eqb c 8232
                            || (nat_eqb c 8233
                                || (nat_eqb c 8239 || (nat_eqb c 8287 || nat_eqb c 12288)))))))))

-- `_blank`, of a text, of a text that may be missing, and of a tuple.
unfoldable pub blank_text : String → Bool
unfolding is_space
blank_text String.[] = true
blank_text (String.◌∷◌ c s) = is_space (code c) && blank_text s

unfoldable pub blank_cell : Option String → Bool
unfolding blank_text
blank_cell none = true
blank_cell (some text) = blank_text text

unfoldable pub blank_list : List String → Bool
blank_list [] = true
blank_list (x ∷ xs) = false

pub record Carried : Type 0 where
  pub label : Option String
  pub other_names : Option (List String)
  pub url : Option (Option String)
  pub phone : Option (Option String)
  pub email : Option (Option String)
  pub image : Option (Option String)
  pub cdn_image : Option (Option String)
  pub start_date : Option (Option String)
  pub end_date : Option (Option String)

abbrev pub nothing_carried : Carried
nothing_carried = record {
  label = none;
  other_names = none;
  url = none;
  phone = none;
  email = none;
  image = none;
  cdn_image = none;
  start_date = none;
  end_date = none;
}

-- One field of `_stated`, and one of `_carried_into`.
abbrev pub state : {A : Type 0} → (A → Bool) → A → Option A
state blank value = if blank value then none else some value

abbrev pub inherit : {A : Type 0} → (A → Bool) → A → Option A → A
inherit blank own carried = if blank own then or_default own carried else own

unfoldable pub stated : SourceRecord → Carried
unfolding blank_text blank_cell blank_list
stated r = record {
  label = state blank_text r.label;
  other_names = state blank_list r.other_names;
  url = state blank_cell r.url;
  phone = state blank_cell r.phone;
  email = state blank_cell r.email;
  image = state blank_cell r.image;
  cdn_image = state blank_cell r.cdn_image;
  start_date = state blank_cell r.start_date;
  end_date = state blank_cell r.end_date;
}

unfoldable pub carried_into : SourceRecord → Carried → SourceRecord
unfolding blank_text blank_cell blank_list
carried_into r carried = record r {
  label = inherit blank_text r.label carried.label;
  other_names = inherit blank_list r.other_names carried.other_names;
  url = inherit blank_cell r.url carried.url;
  phone = inherit blank_cell r.phone carried.phone;
  email = inherit blank_cell r.email carried.email;
  image = inherit blank_cell r.image carried.image;
  cdn_image = inherit blank_cell r.cdn_image carried.cdn_image;
  start_date = inherit blank_cell r.start_date carried.start_date;
  end_date = inherit blank_cell r.end_date carried.end_date;
}

-- One record of a group, with what the record before it stated.
unfoldable pub fill : Carried → SourceRecord → SourceRecord
unfolding carried_into
fill carried r = if r.is_partial then carried_into r carried else r

-- The loop over one group, oldest first.
unfoldable pub rewrite_group :
    Carried → Dict String SourceRecord → List SourceRecord → Dict String SourceRecord
unfolding fill stated put
rewrite_group carried rewritten [] = rewritten
rewrite_group carried rewritten (r ∷ rs) =
    let filled = fill carried r in rewrite_group (stated filled) (put filled.id filled rewritten) rs

unfoldable pub rewrite_groups :
    Dict String SourceRecord → List (List SourceRecord) → Dict String SourceRecord
unfolding rewrite_group sorted stamp_leb text_leb record_stamp
rewrite_groups rewritten [] = rewritten
rewrite_groups rewritten (group ∷ groups) =
    rewrite_groups (rewrite_group nothing_carried rewritten (sorted record_le group)) groups

-- Whose records carry into each other.
abbrev pub seat_key : SourceRecord → String × String
seat_key r = (r.person_id, r.organization_id)

-- `rewritten[record.id]`: every record's id is in `rewritten`.
unfoldable pub with_inherited_blanks : Facts → Facts
unfolding rewrite_groups group_by append_to group_of get
with_inherited_blanks facts =
    let rewritten = rewrite_groups [] (values (group_by seat_key [] facts.records)) in
    if not (any_of (λ r. r.is_partial) facts.records)
    then facts
    else record facts { records = map (λ r. or_default r (get r.id rewritten)) facts.records }
