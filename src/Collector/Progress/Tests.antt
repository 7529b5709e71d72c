-- ===== src/Collector/Progress/Tests.antt =====
-- Progress of small crawls.
use civicpatch_tools.Prelude.{none, ◌*◌, ◌≤◌, ◌≡◌, refl, true, false, [], ◌∷◌}
use civicpatch_tools.Collector.Progress.{
  ProgressState, PipelineRunLimits, required_to_be_done, next_process_content_state,
  should_stop_for_data_requirement, is_short_of_expected, cleanup, scrape_page,
}
use civicpatch_tools.Collector.Progress.Stops.{
  required_to_be_done-bounds, StopsWhy, next_process_content_state_lem, should_stop-short,
}

abbrev nine_of_eleven : ProgressState
nine_of_eleven = record {
  required_data = 11;
  current_data = 9;
  has_target_roles = true;
  has_target_divisions = true;
  organizations = [];
}

abbrev mayor_missing : ProgressState
mayor_missing = record nine_of_eleven {
  organizations =
      record { organization_id = "council"; required = 10; found = 9 }
      ∷ record { organization_id = "mayor"; required = 1; found = 0 }
      ∷ [];
}

abbrev limits : PipelineRunLimits
limits = record { pipeline_run_cap_usd = 100; max_pages = 5 }

next_process_content_state-enough :
    next_process_content_state 3 0 limits nine_of_eleven ≡ cleanup none
unfolding next_process_content_state
next_process_content_state-enough = refl

next_process_content_state-mayor : next_process_content_state 3 0 limits mayor_missing ≡ scrape_page
unfolding next_process_content_state
next_process_content_state-mayor = refl

required_to_be_done-bounds_example :
    (1 ≤ required_to_be_done 9)
    × (4 * 9 ≤ 5 * required_to_be_done 9)
    × (1 ≤ 9 → required_to_be_done 9 ≤ 9)
required_to_be_done-bounds_example = required_to_be_done-bounds 9

next_process_content_state_lem_example :
    StopsWhy 16 40 limits mayor_missing (next_process_content_state 16 40 limits mayor_missing)
next_process_content_state_lem_example = next_process_content_state_lem 16 40 limits mayor_missing

should_stop-short_example : is_short_of_expected nine_of_eleven ≡ false
unfolding should_stop_for_data_requirement
should_stop-short_example = should_stop-short nine_of_eleven refl refl
