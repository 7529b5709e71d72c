-- ===== src/Projection/CanonicalIds.antt =====
-- civicpatch.org/src/core/projection/canonical_ids.py: which person ids are really one person.
pub mod Forest
mod Tests
pub mod Connected
use Prim.Native.String.{◌++◌ as ◌⧺◌}
use civicpatch_tools.Prelude.{
  ℕ, zero, suc, String, Bool, not, Option, none, some, List, [], ◌∷◌, ◌++◌, ◌==◌, ◌>>=◌, map, keep,
  if◌then◌else◌, string_eq, option_eq,
}
use civicpatch_tools.Prelude.Dict.{Dict, get, put}
use civicpatch_tools.Prelude.Sort.{sorted}
use civicpatch_tools.Prelude.Stamp.{text_leb, stamp_leb}
use civicpatch_tools.Projection.Facts.{
  value_id, Claim, ClaimKind, EntityType, Facts, claim_le, claim_stamp,
}

abbrev pub same_as_field : String
same_as_field = "same_as"

-- One turn of `find`'s loop: `p` itself if nothing stands above it, else on from its parent.
follow : String → (String → Option String) → Option String → Option String
follow p onward none = some p
follow p onward (some q) = let rest = onward q in if q == p then some p else rest

-- `find`, on fuel: `none` stands for a loop that does not end.
pub find : Dict String String → ℕ → String → Option String
unfolding follow
find parent zero p = none
find parent (suc fuel) p = follow p (find parent fuel) (get p parent)

-- What the loop over the claims does to `parent`.
pub join : String → String → Dict String String → Dict String String
join a b parent = if a == b then parent else put a b parent

pub merge_claims : ℕ → Dict String String → List Claim → Option (Dict String String)
unfolding join find
merge_claims fuel parent [] = some parent
merge_claims fuel parent (c ∷ cs) = do
  a ← find parent fuel c.entity_id
  b ← find parent fuel (value_id c)
  merge_claims fuel (join a b parent) cs

-- `{person_id: find(person_id) for person_id in parent}`, over the keys still to do.
resolve : (String → Option String) → Dict String String → Option (Dict String String)
resolve find_root [] = some []
resolve find_root ((p, q) ∷ rest) = do
  root ← find_root p
  others ← resolve find_root rest
  some ((p, root) ∷ others)

unfoldable pub canonical_ids : ℕ → List Claim → Option (Dict String String)
unfolding merge_claims resolve sorted stamp_leb text_leb claim_stamp get put
canonical_ids fuel same_as = do
  parent ← merge_claims fuel [] (sorted claim_le same_as)
  resolve (find parent fuel) parent

or_self : String → Option String → String
or_self p none = p
or_self p (some root) = root

-- `canonical.get(person_id) or person_id`: no id is the empty text.
unfoldable pub root_in : Dict String String → String → String
unfolding or_self
root_in canonical p = or_self p (get p canonical)

-- The claim that `with_merges` adds for one merge.
merge_claim : ℕ → String × String → Claim
merge_claim at (absorbed_id, survivor_id) = record {
  id = ◌⧺◌ "same_as:" absorbed_id;
  changeset_id = "unfiled";
  created_at = at;
  entity_type = EntityType.person;
  entity_id = absorbed_id;
  field_path = some same_as_field;
  kind = ClaimKind.accept;
  value = some survivor_id;
  post = none;
}

unfoldable pub with_merges : Facts → Dict String String → ℕ → Facts
unfolding merge_claim
with_merges facts merged_into at = record facts {
  claims = facts.claims ++ map (merge_claim at) (sorted (λ a b. text_leb a.0 b.0) merged_into);
}

unfoldable pub without_merges : Facts → Facts
without_merges facts = record facts {
  claims = keep (λ c. not (c.field_path == some same_as_field)) facts.claims;
}
