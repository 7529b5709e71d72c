-- ===== src/Collector/Progress/Stops.antt =====
-- When a crawl stops, and why.
use civicpatch_tools.Prelude.{
  ℕ, ◌+◌, ◌*◌, ◌≤◌, ◌<◌, ◌≡◌, inl, inr, true, false, none, some, [], arith, Bool-cases, leb,
}
use civicpatch_tools.Collector.Progress.{
  ProgressState, PipelineRunLimits, required_to_be_done, StopReason, should_stop_for_cap,
  found_enough, is_required_met, should_stop_for_data_requirement, is_short_of_expected,
  max_pages_allowed, should_stop_for_max_pages, ProcessNext, cleanup, scrape_page,
  next_process_content_state,
}

-- One person of an organization that has any is always asked for, never more than are known, and
-- at least four in five of them.
pub required_to_be_done-bounds :
    (required : ℕ)
    → (1 ≤ required_to_be_done required)
      × (4 * required ≤ 5 * required_to_be_done required)
      × (1 ≤ required → required_to_be_done required ≤ required)
unfolding required_to_be_done
required_to_be_done-bounds required = ground arith

abbrev pub StopsWhy : ℕ → ℕ → PipelineRunLimits → ProgressState → ProcessNext → Type 0
StopsWhy processed_count current_cost limits progress (cleanup none) =
    should_stop_for_data_requirement progress ≡ true
StopsWhy processed_count current_cost limits progress (cleanup (some StopReason.cost_cap_reached)) =
    (should_stop_for_data_requirement progress ≡ false)
    × (limits.pipeline_run_cap_usd ≤ current_cost)
StopsWhy processed_count current_cost limits progress
      (cleanup (some StopReason.max_pages_reached)) =
    (should_stop_for_data_requirement progress ≡ false)
    × (current_cost < limits.pipeline_run_cap_usd)
    × (limits.max_pages + progress.required_data ≤ processed_count)
StopsWhy processed_count current_cost limits progress scrape_page =
    (should_stop_for_data_requirement progress ≡ false)
    × (current_cost < limits.pipeline_run_cap_usd)
    × (processed_count < limits.max_pages + progress.required_data)

-- A crawl that stops without a reason has what it came for; one that stops at its cost cap has
-- not, and has spent the cap; one that stops at its page cap has not, has money left, and has read
-- all the pages it may; and one that goes on lacks something and has money and pages left.
pub next_process_content_state_lem :
    (processed_count current_cost : ℕ) (limits : PipelineRunLimits) (progress : ProgressState)
    → StopsWhy processed_count current_cost limits progress
        (next_process_content_state processed_count current_cost limits progress)
unfolding next_process_content_state should_stop_for_cap should_stop_for_max_pages max_pages_allowed
next_process_content_state_lem processed_count current_cost limits progress =
    elim (Bool-cases (should_stop_for_data_requirement progress)) [
      | inl t ↦ rw t t
      | inr f ↦ elim (Bool-cases (leb limits.pipeline_run_cap_usd current_cost)) [
        | inl t ↦ rw (f, t) (f, ground arith)
        | inr g ↦
            elim (Bool-cases (leb (limits.max_pages + progress.required_data) processed_count)) [
              | inl t ↦ rw (f, g, t) (f, ground arith, ground arith)
              | inr h ↦ rw (f, g, h) (f, ground arith, ground arith)
            ]
      ]
    ]

-- A crawl of a single organization that stopped because it had enough is not reported short.
pub should_stop-short :
    (progress : ProgressState)
    → progress.organizations ≡ []
    → should_stop_for_data_requirement progress ≡ true
    → is_short_of_expected progress ≡ false
unfolding should_stop_for_data_requirement is_required_met is_short_of_expected found_enough
should_stop-short progress single stops =
    let met : is_required_met progress [] ≡ true = rw single at stops in ground (arith, met)
