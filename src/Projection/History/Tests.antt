-- ===== src/Projection/History/Tests.antt =====
-- A mayor who leaves and comes back.
use civicpatch_tools.Prelude.{
  ℕ, String, ◌≡◌, ◌↔◌, refl, false, some, none, Option, List, [], ◌∷◌, map,
}
use civicpatch_tools.Projection.Facts.{PostKey}
use civicpatch_tools.Projection.History.{Membership, Person, Roster, membership_history}
use civicpatch_tools.Projection.History.Open.{IsHeldBy}
use civicpatch_tools.Projection.History.Standing.{Stands, membership_history-Stands}

abbrev role_of : PostKey → String
role_of post = post.role_id

abbrev mayor : Membership
mayor = record {
  post = record { organization_id = "council"; role_id = "mayor"; division_ocdid = "town" };
  opened_at = 0;
  label = none;
  start_date = none;
  end_date = none;
  designations = [];
  unmatched_text = [];
  sources = [];
  extra_roles = [];
}

abbrev ann : List Membership → Person
ann memberships = record {
  id = "p";
  name = some "Ann Lee";
  image = none;
  cdn_image = none;
  phones = [];
  emails = [];
  urls = [];
  other_names = [];
  source_urls = [];
  memberships = memberships;
  edited = false;
}

abbrev roster : List Membership → Roster
roster memberships = record { people = ann memberships ∷ [] }

abbrev snapshots : List (ℕ × Roster)
snapshots =
    (1, roster (mayor ∷ []))
    ∷ (2, roster (mayor ∷ []))
    ∷ (5, roster [])
    ∷ (5, roster [])
    ∷ (8, roster (mayor ∷ []))
    ∷ []

membership_history-twice :
    map {B = ℕ × Option ℕ}
      (λ row. (row.opened_at, row.closed_at))
      (membership_history role_of snapshots)
    ≡ (1, some 5) ∷ (8, none) ∷ []
unfolding membership_history
membership_history-twice = refl

membership_history-Stands_example :
    Stands role_of snapshots ("p", "mayor")
    ↔ IsHeldBy role_of (roster (mayor ∷ [])).people ("p", "mayor")
membership_history-Stands_example =
    membership_history-Stands role_of snapshots 8 (roster (mayor ∷ [])) refl ("p", "mayor")
