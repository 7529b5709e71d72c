-- ===== src/Projection/AsOf.antt =====
-- civicpatch.org/src/core/projection/as_of.py: facts as they stood at a moment, and the moments.
mod Tests
pub mod Cuts
use civicpatch_tools.Prelude.{
  ℕ, String, Bool, true, false, ◌||◌, Option, none, some, List, [], ◌∷◌, ◌++◌, ◌==◌, map, keep, mem,
  leb, ltb, if◌then◌else◌, string_eq, option_eq, nat_eq, HasEq,
}
use civicpatch_tools.Prelude.Dict.{Dict, keys, get, put}
use civicpatch_tools.Prelude.Sort.{sorted}
use civicpatch_tools.Projection.Facts.{Claim, SourceRecord, Facts}

-- `_IDENTITY_FIELDS`
abbrev pub is_identity_field : Option String → Bool
is_identity_field field = field == some "same_as" || field == some "person_id"

published_by : ℕ → Option ℕ → Bool
published_by at none = false
published_by at (some published) = leb published at

unfoldable pub counts : Dict String ℕ → ℕ → String → Bool
unfolding published_by get
counts published_at at changeset_id = published_by at (get changeset_id published_at)

unfoldable pub claim_counts : Dict String ℕ → ℕ → Claim → Bool
unfolding counts
claim_counts published_at at claim =
    is_identity_field claim.field_path || counts published_at at claim.changeset_id

unfoldable pub facts_as_of : Facts → Dict String ℕ → ℕ → Facts
unfolding claim_counts counts
facts_as_of facts published_at at = record facts {
  records = keep (λ r. counts published_at at r.changeset_id) facts.records;
  claims = keep (claim_counts published_at at) facts.claims;
}

abbrev pub min : ℕ → ℕ → ℕ
min a b = if ltb b a then b else a

abbrev pub max : ℕ → ℕ → ℕ
max a b = if ltb a b then b else a

abbrev pub get_or : ℕ → Option ℕ → ℕ
get_or time none = time
get_or time (some other) = other

-- `d[k] = min(time, d.get(k, time))`
lower : {K : Type 0} ⦃e : HasEq K⦄ → K → ℕ → Dict K ℕ → Dict K ℕ
unfolding put get
lower k time d = put k (min time (get_or time (get k d))) d

-- The loops of `_observed_at`, each over the changesets and the times of one kind of fact.
observe : Dict String ℕ → List (String × ℕ) → Dict String ℕ
unfolding lower
observe observed [] = observed
observe observed ((changeset_id, created_at) ∷ rest) =
    observe (lower changeset_id created_at observed) rest

unfoldable pub observed_at : Facts → Dict String ℕ
unfolding observe
observed_at facts = observe [] (
    map (λ r. (r.changeset_id, r.created_at)) facts.records
    ++ map (λ c. (c.changeset_id, c.created_at)) facts.claims
    ++ map (λ w. (w.changeset_id, w.created_at)) facts.withdraws)

-- The earliest observation of the changesets that each publish takes in.
earliest_of : Dict String ℕ → Dict ℕ ℕ → Dict String ℕ → Dict ℕ ℕ
unfolding lower get
earliest_of observed earliest [] = earliest
earliest_of observed earliest ((changeset_id, cut) ∷ rest) =
    earliest_of observed (lower cut (get_or cut (get changeset_id observed)) earliest) rest

-- A stamp never goes back: the last one so far is the least that the next may be.
stamped : Dict ℕ ℕ → Option ℕ → List ℕ → List (ℕ × ℕ)
unfolding get
stamped earliest previous [] = []
stamped earliest previous (cut ∷ cuts) =
    let own = get_or cut (get cut earliest) in
    let stamp = max (get_or own previous) own in (cut, stamp) ∷ stamped earliest (some stamp) cuts

unfoldable pub snapshot_times : Facts → Dict String ℕ → List (ℕ × ℕ)
unfolding observed_at earliest_of stamped sorted
snapshot_times facts published_at =
    let earliest = earliest_of (observed_at facts) [] published_at in
    stamped earliest none (sorted leb (keys earliest))
