-- ===== src/Schedule/Tests.antt =====
-- A schedule of every three days, anchored on the fifth day.
use civicpatch_tools.Prelude.{ℕ, ◌*◌, ◌≡◌, refl, none, some, arith}
use civicpatch_tools.Schedule.{day, interval_offset, next_run_at, Cap, cap_reached}
use civicpatch_tools.Schedule.Slots.{IsNext, next_run_at_lem}

next_run_at-later : next_run_at (some 3) (some (5 * day)) (10 * day) ≡ some (some (11 * day))
unfolding next_run_at
next_run_at-later = refl

-- Before the first time, and with no days between the times.
next_run_at-first : next_run_at (some 3) (some (5 * day)) day ≡ some (some (2 * day))
unfolding next_run_at
next_run_at-first = refl

next_run_at-raises : next_run_at (some 0) none day ≡ none
unfolding next_run_at
next_run_at-raises = refl

-- A cap of nothing stops a state that has spent nothing.
cap_reached-stop : cap_reached 0 (some 0) 5 (some 5) ≡ some Cap.state_month
unfolding cap_reached
cap_reached-stop = refl

next_run_at_lem_example :
    (time : ℕ) × (next_run_at (some 3) (some (5 * day)) (10 * day) ≡ some (some time))
    × IsNext (interval_offset (some (5 * day)) (3 * day)) (3 * day) (10 * day) time
next_run_at_lem_example = next_run_at_lem 3 (some (5 * day)) (10 * day) (omega arith)
