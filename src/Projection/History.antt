-- ===== src/Projection/History.antt =====
-- civicpatch.org/src/core/projection/membership_history.py: who held which post, when. A post's id
-- (`PostKey.post_id`, a hash of the key) is a parameter. Of a person and of a membership, the
-- fields are those of core/projection/people.py.
mod Tests
pub mod Open
pub mod Standing
use civicpatch_tools.Prelude.{
  ℕ, String, ◌≡◌, ◌↔◌, Bool, true, false, not, ◌&&◌, Option, none, some, List, [], ◌∷◌, ◌++◌, ◌==◌,
  arith, map, keep, ltb, nat_eq, string_eq, HasEq, if◌then◌else◌,
}
use civicpatch_tools.Prelude.Dict.{Dict, keys, values, get, put, has_key}
use civicpatch_tools.Prelude.Sort.{sorted}
use civicpatch_tools.Prelude.Stamp.{text_leb}
use civicpatch_tools.Projection.Facts.{PostKey}

pub record MembershipSource : Type 0 where
  pub note : Option String
  pub url : Option String

pub record Membership : Type 0 where
  pub post : PostKey
  pub opened_at : ℕ
  pub label : Option String
  pub start_date : Option String
  pub end_date : Option String
  pub designations : List String
  pub unmatched_text : List String
  pub sources : List MembershipSource
  pub extra_roles : List String

pub record Person : Type 0 where
  pub id : String
  pub name : Option String
  pub image : Option String
  pub cdn_image : Option String
  pub phones : List String
  pub emails : List String
  pub urls : List String
  pub other_names : List String
  pub source_urls : List String
  pub memberships : List Membership
  pub edited : Bool

pub record Roster : Type 0 where
  pub people : List Person

pub record MembershipRow : Type 0 where
  pub person_id : String
  pub membership : Membership
  pub opened_at : ℕ
  pub closed_at : Option ℕ

-- A person and a post.
abbrev pub Pair : Type 0
Pair = String × String

pub pair_eqb_iff : (a b : Pair) → ((a.0 == b.0 && a.1 == b.1) ≡ true) ↔ (a ≡ b)
pair_eqb_iff a b = ground (arith, string_eq.eqb_iff a.0 b.0, string_eq.eqb_iff a.1 b.1)

instance abbrev pub pair_eq : HasEq Pair
pair_eq = record { eqb = λ a b. a.0 == b.0 && a.1 == b.1; eqb_iff = pair_eqb_iff }

-- Snapshots of one time collapse to the last.
unfoldable pub push : List (ℕ × Roster) → ℕ → Roster → List (ℕ × Roster)
push [] at roster = (at, roster) ∷ []
push ((last_at, last_roster) ∷ []) at roster =
    if last_at == at then (at, roster) ∷ [] else (last_at, last_roster) ∷ (at, roster) ∷ []
push (first ∷ second ∷ collapsed) at roster = first ∷ push (second ∷ collapsed) at roster

unfoldable pub collapse : List (ℕ × Roster) → List (ℕ × Roster) → List (ℕ × Roster)
unfolding push
collapse collapsed [] = collapsed
collapse collapsed ((at, roster) ∷ snapshots) = collapse (push collapsed at roster) snapshots

unfoldable pub last_per_moment : List (ℕ × Roster) → List (ℕ × Roster)
unfolding collapse
last_per_moment snapshots = collapse [] snapshots

module _ (post_id : PostKey → String) where
  unfoldable pub hold : String → Dict Pair Membership → List Membership → Dict Pair Membership
  unfolding put
  hold person_id held [] = held
  hold person_id held (m ∷ ms) = hold person_id (put (person_id, post_id m.post) m held) ms

  unfoldable pub hold_all : Dict Pair Membership → List Person → Dict Pair Membership
  unfolding hold
  hold_all held [] = held
  hold_all held (p ∷ people) = hold_all (hold p.id held p.memberships) people

  -- `_held`
  unfoldable pub held_in : Roster → Dict Pair Membership
  unfolding hold_all
  held_in roster = hold_all [] roster.people

  abbrev pub close : ℕ → MembershipRow → MembershipRow
  close at row = record row { closed_at = some at }

  unfoldable pub opened : ℕ → Option MembershipRow → ℕ
  opened at none = at
  opened at (some row) = row.opened_at

  -- The loop over the pairs that are held: a row that is open keeps when it opened.
  unfoldable pub reopen :
      ℕ → Dict Pair MembershipRow → Dict Pair Membership → Dict Pair MembershipRow
  unfolding opened put get
  reopen at rows [] = rows
  reopen at rows ((pair, membership) ∷ held) =
      reopen at
        (put pair
          (record {
            person_id = pair.0;
            membership = membership;
            opened_at = opened at (get pair rows);
            closed_at = none;
          })
          rows)
        held

  -- One snapshot: rows whose pair is held no more close, and the pairs held are open.
  unfoldable pub turn :
      ℕ
      → Dict Pair Membership
      → List MembershipRow × Dict Pair MembershipRow
      → List MembershipRow × Dict Pair MembershipRow
  unfolding reopen get
  turn at held (closed, rows) = (
    closed ++ map (λ e. close at e.1) (keep (λ e. not (has_key e.0 held)) rows),
    reopen at (keep (λ e. has_key e.0 held) rows) held,
  )

  unfoldable pub turns :
      List MembershipRow × Dict Pair MembershipRow
      → List (ℕ × Roster)
      → List MembershipRow × Dict Pair MembershipRow
  unfolding turn held_in
  turns state [] = state
  turns state ((at, roster) ∷ snapshots) = turns (turn at (held_in roster) state) snapshots

  -- `(row.opened_at, row.person_id, row.membership.post.post_id)`, compared from the left.
  unfoldable pub row_le : MembershipRow → MembershipRow → Bool
  unfolding text_leb
  row_le a b =
      if ltb a.opened_at b.opened_at
      then true
      else if ltb b.opened_at a.opened_at
      then false
      else if a.person_id == b.person_id
      then text_leb (post_id a.membership.post) (post_id b.membership.post)
      else text_leb a.person_id b.person_id

  unfoldable pub membership_history : List (ℕ × Roster) → List MembershipRow
  unfolding turns last_per_moment sorted row_le
  membership_history snapshots =
      let (closed, rows) = turns ([], []) (last_per_moment snapshots) in
      sorted row_le (closed ++ values rows)
