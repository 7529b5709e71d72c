-- ===== src/PostDeletion/Tests.antt =====
-- A seat of the council that a board has too.
use civicpatch_tools.Prelude.{String, ◌≡◌, ◌≢◌, ◌↔◌, refl, true, none, some}
use civicpatch_tools.Projection.PostMerges.{same_office}
use civicpatch_tools.PostDeletion.{Post, key_of, merge_refusal}
use civicpatch_tools.PostDeletion.Allowed.{merge_refusal_lem}

abbrev seat : String → String → Post
seat id organization_id = record {
  id = id;
  jurisdiction_ocdid = "town";
  organization_id = organization_id;
  role_id = "member";
  division_ocdid = "town";
  label = "Member";
  role_label = "Member";
  meta_headcount = 1;
}

abbrev council_seat : Post
council_seat = seat "p1" "council"

abbrev board_seat : Post
board_seat = seat "p2" "board"

merge_refusal-elsewhere : merge_refusal council_seat board_seat ≡ none
unfolding merge_refusal
merge_refusal-elsewhere = refl

merge_refusal-office :
    merge_refusal council_seat (record board_seat { role_id = "clerk" })
    ≡ some "The post to move to must have the same role and division."
unfolding merge_refusal
merge_refusal-office = refl

merge_refusal_lem_example : (merge_refusal council_seat board_seat ≡ none) ↔ (
    (council_seat.id ≢ board_seat.id)
    × (council_seat.jurisdiction_ocdid ≡ board_seat.jurisdiction_ocdid)
    × (council_seat.organization_id ≢ board_seat.organization_id)
    × (same_office (key_of council_seat) (key_of board_seat) ≡ true))
merge_refusal_lem_example = merge_refusal_lem council_seat board_seat
