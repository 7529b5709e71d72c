-- ===== src/Changesets.antt =====
-- civicpatch.org/src/core/changeset_lifecycle.py: where a changeset is and what may happen to it.
-- `ChangesetKind` is in shared/src/shared/utils/statuses.py.
mod Tests
pub mod Decided
use civicpatch_tools.Prelude.{
  ℕ, String, ◌≡◌, ◌↔◌, Bool, true, false, List, [], ◌∷◌, ◌==◌, arith, mem, map, keep, HasEq,
  nat_eqb,
}

pub data ChangesetKind : Type 0 where
  scrape sheet_import roster_edit jurisdiction_edit rollback : ChangesetKind

pub data ChangesetState : Type 0 where
  open_ published dismissed : ChangesetState

pub data ChangesetEvent : Type 0 where
  was_published was_dismissed : ChangesetEvent

event_place : ChangesetEvent → ℕ
event_place ChangesetEvent.was_published = 0
event_place ChangesetEvent.was_dismissed = 1

unfoldable pub event_eqb : ChangesetEvent → ChangesetEvent → Bool
unfolding event_place
event_eqb a b = nat_eqb (event_place a) (event_place b)

pub event_eqb_iff : (a b : ChangesetEvent) → (event_eqb a b ≡ true) ↔ (a ≡ b)
unfolding event_eqb
event_eqb_iff a b = ground arith

instance abbrev pub event_eq : HasEq ChangesetEvent
event_eq = record { eqb = event_eqb; eqb_iff = event_eqb_iff }

-- `Transition`: which state an event may leave, and where it lands.
pub record Transition : Type 0 where
  pub frm : ChangesetState
  pub event : ChangesetEvent
  pub to : ChangesetState

-- `TRANSITIONS`
abbrev pub changeset_transitions : List Transition
changeset_transitions =
    record { frm = open_; event = ChangesetEvent.was_published; to = ChangesetState.published }
    ∷ record { frm = open_; event = ChangesetEvent.was_dismissed; to = ChangesetState.dismissed }
    ∷ []

unfoldable pub initial_state : ChangesetKind → ChangesetState
initial_state ChangesetKind.scrape = open_
initial_state ChangesetKind.sheet_import = open_
initial_state ChangesetKind.roster_edit = ChangesetState.published
initial_state ChangesetKind.jurisdiction_edit = open_
initial_state ChangesetKind.rollback = open_

unfoldable pub states_accepting : ChangesetEvent → List ChangesetState
unfolding event_eqb
states_accepting event = map (λ t. t.frm) (keep (λ t. t.event == event) changeset_transitions)
