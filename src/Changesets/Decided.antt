-- ===== src/Changesets/Decided.antt =====
-- Lemmas on the table of changeset events.
use civicpatch_tools.Prelude.{◌≤◌, ◌≡◌, inl, inr, List, [], ◌∷◌, arith, Has, length}
use civicpatch_tools.Changesets.{
  ChangesetState, open_, ChangesetEvent, Transition, changeset_transitions, event_eq,
}

-- One edge of the table, and the events that lead from one state to another.
abbrev pub Moves : ChangesetState → ChangesetEvent → ChangesetState → Type 0
Moves from event to =
    (t : Transition) × Has t changeset_transitions
    × (t.frm ≡ from)
    × (t.event ≡ event)
    × (t.to ≡ to)

pub data Lives : ChangesetState → List ChangesetEvent → ChangesetState → Type 0 where
  stays : {s : ChangesetState} → Lives s [] s
  moves_on :
      {s t u : ChangesetState} {e : ChangesetEvent} {es : List ChangesetEvent}
      → Moves s e t
      → Lives t es u
      → Lives s (e ∷ es) u

-- Every edge leaves the open state, and none comes back to it.
Moves-open : (s t : ChangesetState) (e : ChangesetEvent) → Moves s e t → (s ≡ open_) × ¬ (t ≡ open_)
Moves-open s t e (edge, inl q, a, b, c) = (cc, λ o. cc)
Moves-open s t e (edge, inr (inl q), a, b, c) = (cc, λ o. cc)
Moves-open s t e (edge, inr (inr z), a, b, c) = absurd z

-- From any state, a changeset goes through at most one event.
pub Lives-once :
    (s u : ChangesetState) (events : List ChangesetEvent) → Lives s events u → length events ≤ 1
Lives-once s u events stays = omega arith
Lives-once s u events (moves_on move stays) = omega arith
Lives-once s u events (moves_on move (moves_on next rest)) =
    absurd ((Moves-open _ _ _ move).1 (Moves-open _ _ _ next).0)
