-- ===== src/Projection/LiveFacts/Tests.antt =====
-- `live_facts` on a claim, a vandal's withdraw of it, and the rollback of the vandal.
use civicpatch_tools.Prelude.{
  ℕ, String, ◌≡◌, refl, Bool, some, [], ◌∷◌, arith, ◌==◌, if◌then◌else◌, string_eq, ne_of_eqb,
}
use civicpatch_tools.Projection.Facts.{Claim, ClaimKind, Facts}
use civicpatch_tools.Projection.Samples.{no_facts, person_claim, withdraw_of}
use civicpatch_tools.Projection.LiveFacts.{live_facts}
use civicpatch_tools.Projection.LiveFacts.Memo.{IsLiveness, kept, live_facts_complete}
use civicpatch_tools.Projection.LiveFacts.Undo.{IsUndone, live_facts-undo}

abbrev said : Claim
said = person_claim "c" 1 "p" "name" ClaimKind.accept "Ann"

abbrev vandal : Claim
vandal = withdraw_of "w1" 2 "c"

abbrev rollback : Claim
rollback = withdraw_of "w2" 3 "w1"

abbrev before : Facts
before = record no_facts { claims = said ∷ [] }

abbrev after : Facts
after = record before { withdraws = vandal ∷ rollback ∷ [] }

abbrev rank : String → ℕ
rank id = if id == "w2" then 0 else if id == "w1" then 1 else 2

live_facts-vandal :
    live_facts 3 (record before { withdraws = vandal ∷ [] })
    ≡ some (record no_facts { withdraws = vandal ∷ [] })
unfolding live_facts
live_facts-vandal = refl

live_facts-rollback : live_facts 3 after ≡ some (record before { withdraws = rollback ∷ [] })
unfolding live_facts
live_facts-rollback = refl

live_facts_complete_example :
    (v : String → Bool) × IsLiveness after.withdraws v
    × ((u : String → Bool) → IsLiveness after.withdraws u → (id : String) → u id ≡ v id)
    × (live_facts 3 after ≡ some (kept v after))
live_facts_complete_example = live_facts_complete after rank (omega arith) 3 (λ id. ground arith)

said-IsUndone : IsUndone [] vandal rollback
said-IsUndone = record {
  undoes = refl;
  other = ne_of_eqb "w1" "w2" refl;
  w₁_new = tt;
  w₁_named = tt;
  w₂_named = tt;
}

live_facts-before : live_facts 3 before ≡ some before
unfolding live_facts
live_facts-before = refl

live_facts-undo_example : live_facts 3 after ≡ some (record before { withdraws = rollback ∷ [] })
live_facts-undo_example =
    live_facts-undo before vandal rollback said-IsUndone rank (omega arith) 3 (λ id. ground arith)
      (tt, (ne_of_eqb "c" "w1" refl, tt), tt) before live_facts-before
