-- ===== src/Projection/Memberships/Tests.antt =====
-- A post that a reviewer rejected, and a page that was read again.
use civicpatch_tools.Prelude.{ℕ, ◌≡◌, refl, true, false, some, [], ◌∷◌}
use civicpatch_tools.Projection.Facts.{Claim, ClaimKind, PostKey, SourceRecord, Facts}
use civicpatch_tools.Projection.Samples.{no_facts, person_claim, scraped}
use civicpatch_tools.Projection.Memberships.{membership_state, posts_field}
use civicpatch_tools.Projection.Memberships.Holding.{HoldsExactly, membership_state_lem}

abbrev mayor : PostKey
mayor = record { organization_id = "council"; role_id = "mayor"; division_ocdid = "town" }

abbrev said : ClaimKind → Claim
said kind = record (person_claim "c" 5 "p" posts_field kind "post") { post = some mayor }

abbrev read_at : ℕ → SourceRecord
read_at at = scraped "r" "s" at "p" "council" "Ann Lee"

abbrev facts : ClaimKind → ℕ → Facts
facts kind at = record no_facts { records = read_at at ∷ []; claims = said kind ∷ [] }

membership_state-rejected :
    membership_state ("p" ∷ []) mayor (read_at 4 ∷ []) (facts ClaimKind.reject 4) ≡ false
unfolding membership_state
membership_state-rejected = refl

membership_state-read_again :
    membership_state ("p" ∷ []) mayor (read_at 6 ∷ []) (facts ClaimKind.reject 6) ≡ true
unfolding membership_state
membership_state-read_again = refl

membership_state-accepted : membership_state ("p" ∷ []) mayor [] (facts ClaimKind.accept 6) ≡ true
unfolding membership_state
membership_state-accepted = refl

membership_state_lem_example :
    HoldsExactly ("p" ∷ []) mayor (read_at 6 ∷ []) (facts ClaimKind.reject 6)
membership_state_lem_example =
    membership_state_lem ("p" ∷ []) mayor (read_at 6 ∷ []) (facts ClaimKind.reject 6)
