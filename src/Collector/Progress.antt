-- ===== src/Collector/Progress.antt =====
-- When a crawl has enough and stops:
-- pipelines/src/runners/pipeline03_people_collector/transitions/process_page_content_transition.py and
-- steps/step_04_process_page_content/organization_progress.py. A cost is counted in units of the
-- smallest coin that the limits are written in.
mod Tests
pub mod Stops
use civicpatch_tools.Prelude.{
  ℕ, ◌+◌, ◌-◌, ◌/◌, String, Bool, true, false, ◌&&◌, Option, none, some, List, [], ◌∷◌, leb, ltb,
  all_of, if◌then◌else◌,
}

pub record OrganizationProgress : Type 0 where
  pub organization_id : String
  pub required : ℕ
  pub found : ℕ

pub record ProgressState : Type 0 where
  pub required_data : ℕ
  pub current_data : ℕ
  pub has_target_roles : Bool
  pub has_target_divisions : Bool
  pub organizations : List OrganizationProgress

-- The limits that the crawl reads.
pub record PipelineRunLimits : Type 0 where
  pub pipeline_run_cap_usd : ℕ
  pub max_pages : ℕ

-- constants.py
abbrev pub data_requirement_tolerance : ℕ
data_requirement_tolerance = 2

unfoldable pub required_to_be_done : ℕ → ℕ
required_to_be_done required = let most = required - required / 5 in if ltb most 1 then 1 else most

unfoldable pub is_done : OrganizationProgress → Bool
unfolding required_to_be_done
is_done organization = leb (required_to_be_done organization.required) organization.found

pub data StopReason : Type 0 where
  cost_cap_reached max_pages_reached : StopReason

unfoldable pub should_stop_for_cap : ℕ → PipelineRunLimits → Bool
should_stop_for_cap current_cost limits = leb limits.pipeline_run_cap_usd current_cost

-- `current_data >= required_data - DATA_REQUIREMENT_TOLERANCE` on whole numbers, which may be
-- below zero on the right.
unfoldable pub found_enough : ProgressState → Bool
found_enough progress =
    leb progress.required_data (progress.current_data + data_requirement_tolerance)

-- Decides by each organization's own count if there are any.
unfoldable pub is_required_met : ProgressState → List OrganizationProgress → Bool
unfolding found_enough is_done
is_required_met progress [] =
    found_enough progress && progress.has_target_roles && progress.has_target_divisions
is_required_met progress (o ∷ organizations) = all_of is_done (o ∷ organizations)

unfoldable pub should_stop_for_data_requirement : ProgressState → Bool
unfolding is_required_met
should_stop_for_data_requirement progress = is_required_met progress progress.organizations

unfoldable pub is_short_of_expected : ProgressState → Bool
is_short_of_expected progress =
    ltb (progress.current_data + data_requirement_tolerance) progress.required_data

unfoldable pub max_pages_allowed : PipelineRunLimits → ProgressState → ℕ
max_pages_allowed limits progress = limits.max_pages + progress.required_data

unfoldable pub should_stop_for_max_pages : ℕ → PipelineRunLimits → ProgressState → Bool
unfolding max_pages_allowed
should_stop_for_max_pages processed_count limits progress =
    leb (max_pages_allowed limits progress) processed_count

-- The crawl stops, with a reason where there is one, or goes on to scrape.
pub data ProcessNext : Type 0 where
  cleanup : Option StopReason → ProcessNext
  scrape_page : ProcessNext

unfoldable pub next_process_content_state : ℕ → ℕ → PipelineRunLimits → ProgressState → ProcessNext
unfolding should_stop_for_cap should_stop_for_data_requirement should_stop_for_max_pages
next_process_content_state processed_count current_cost limits progress =
    if should_stop_for_data_requirement progress
    then cleanup none
    else if should_stop_for_cap current_cost limits
    then cleanup (some StopReason.cost_cap_reached)
    else if should_stop_for_max_pages processed_count limits progress
    then cleanup (some StopReason.max_pages_reached)
    else scrape_page
