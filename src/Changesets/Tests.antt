-- ===== src/Changesets/Tests.antt =====
-- A scrape that is published.
use civicpatch_tools.Prelude.{◌≡◌, ◌≤◌, refl, inl, length, [], ◌∷◌}
use civicpatch_tools.Changesets.{ChangesetState, open_, ChangesetEvent, states_accepting}
use civicpatch_tools.Changesets.Decided.{Lives, stays, moves_on, Lives-once}

states_accepting-dismissed : states_accepting ChangesetEvent.was_dismissed ≡ open_ ∷ []
unfolding states_accepting
states_accepting-dismissed = refl

published_once : Lives open_ (ChangesetEvent.was_published ∷ []) ChangesetState.published
published_once =
    moves_on
      (
        record { frm = open_; event = ChangesetEvent.was_published; to = ChangesetState.published },
        inl refl,
        refl,
        refl,
        refl,
      )
      stays

Lives-once_example : length (ChangesetEvent.was_published ∷ []) ≤ 1
Lives-once_example =
    Lives-once open_ ChangesetState.published (ChangesetEvent.was_published ∷ []) published_once
