-- ===== src/Projection/LiveFacts.antt =====
-- civicpatch.org/src/core/projection/live_facts.py: which facts still count.
mod Memo
mod Tests
pub mod Undo
use civicpatch_tools.Prelude.{
  ℕ, zero, suc, String, Bool, true, false, not, Option, none, some, List, [], ◌∷◌, ◌>>=◌,
  if◌then◌else◌, string_eq,
}
use civicpatch_tools.Prelude.Dict.{Dict, get, put, group_of, append_to, group_by}
use civicpatch_tools.Projection.Facts.{Claim, Facts}

abbrev Answers : Type 0
Answers = Dict String Bool

-- `any(live(w.id) for w in ws)`, which stops at the first live one.
any_live :
    (Answers → String → Option (Answers × Bool)) → Answers → List Claim → Option (Answers × Bool)
any_live live memo [] = some (memo, false)
any_live live memo (w ∷ ws) = do
  (memo', is_live) ← live memo w.id
  if is_live then some (memo', true) else any_live live memo' ws

-- The memo's answer for a fact, or else the new one, which is remembered.
remember : String → Answers → Option Bool → Option (Answers × Bool) → Option (Answers × Bool)
remember fact_id memo (some is_live) withdrawn = some (memo, is_live)
remember fact_id memo none withdrawn = do
  (memo', hit) ← withdrawn
  some (put fact_id (not hit) memo', not hit)

-- `live` with its memo, on fuel: `none` stands for a recursion that does not end.
live : Dict String (List Claim) → ℕ → Answers → String → Option (Answers × Bool)
unfolding remember any_live
live by_fact zero memo fact_id = none
live by_fact (suc fuel) memo fact_id =
    let withdrawn = any_live (live by_fact fuel) memo (group_of fact_id by_fact) in
    remember fact_id memo (get fact_id memo) withdrawn

-- `tuple(x for x in xs if live(x.id))`, the memo going on to what follows.
keep_live :
    {A : Type 0}
    → (Answers → String → Option (Answers × Bool))
    → (A → String)
    → Answers
    → List A
    → Option (Answers × List A)
keep_live live id memo [] = some (memo, [])
keep_live live id memo (x ∷ xs) = do
  (memo', is_live) ← live memo (id x)
  (memo'', rest) ← keep_live live id memo' xs
  some (memo'', if is_live then x ∷ rest else rest)

unfoldable pub live_facts : ℕ → Facts → Option Facts
unfolding keep_live live group_by append_to group_of get put
live_facts fuel facts = do
  let fact_id_to_withdraws = group_by (λ w. w.entity_id) [] facts.withdraws
  let call = live fact_id_to_withdraws fuel
  (memo₁, records) ← keep_live call (λ r. r.id) [] facts.records
  (memo₂, claims) ← keep_live call (λ c. c.id) memo₁ facts.claims
  (memo₃, withdraws) ← keep_live call (λ w. w.id) memo₂ facts.withdraws
  (memo₄, reads) ← keep_live call (λ r. r.id) memo₃ facts.reads
  some (record { records = records; claims = claims; withdraws = withdraws; reads = reads })
