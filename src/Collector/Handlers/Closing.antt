-- ===== src/Collector/Handlers/Closing.antt =====
-- pipelines/src/runners/pipeline03_people_collector/transitions/main.py: the transitions of the states
-- after the crawl, and the search for another address.
use civicpatch_tools.Prelude.{
  ℕ, String, Bool, false, not, ◌&&◌, Option, none, some, [], ◌∷◌, nat_eq, string_eq, if◌then◌else◌,
  option_eq,
}
use civicpatch_tools.StateGraph.{PipelineRunStatus, status, is_empty}
use civicpatch_tools.Engine.{returned, raised}
use civicpatch_tools.Collector.Graph.{PeopleCollectorStep, step_eq}
use civicpatch_tools.Collector.Frontier.{Link, status_eq, get_link, from_urls}
use civicpatch_tools.Collector.Handlers.{
  PipelineRunErrorType, ErrorDetail, ProcessPageContentStep, FindJurisdictionUrlStep,
  MaybeSendToGitHubStep, PeopleCollectorData, Attempt, gave, threw, all_records, is_known,
  Heuristics, error_found, issues_found, collect_pipeline_heuristics,
}
use civicpatch_tools.Collector.Handlers.Steps.{
  Context, Answer, go_to, with_data, with_progress, failed, failed_plainly,
}

module _ {Rec Pre : Type 0} (canonical_url format_url : String → String)
    (same_domain : String → String → Bool) (percentage : PeopleCollectorData Rec Pre → ℕ → ℕ) where
  unfoldable pub cleanup_transition : Context Rec Pre → Attempt Unit → Answer Rec Pre
  cleanup_transition context (threw text) = raised text
  cleanup_transition context (gave cleaned) =
      returned (with_progress context (percentage context.run_data 9))
        (go_to PeopleCollectorStep.review_output)

  unfoldable pub after_heuristics : Context Rec Pre → Heuristics → Answer Rec Pre
  unfolding failed_plainly
  after_heuristics context (error_found error_type) = failed_plainly context error_type
  after_heuristics context (issues_found issues) =
      returned
        (with_progress (with_data context (record context.run_data { issues = issues }))
          (percentage context.run_data 10))
        (go_to PeopleCollectorStep.save_output)

  -- `assert process_page_content_step is not None` raises where no page was processed.
  unfoldable pub review_output_transition :
      Context Rec Pre → Option (ProcessPageContentStep Rec) → Answer Rec Pre
  unfolding all_records after_heuristics collect_pipeline_heuristics
  review_output_transition context none = raised "AssertionError: "
  review_output_transition context (some result) =
      if is_empty (all_records result) && not (is_known context.run_data.find_jurisdiction_url_step)
      then returned context (go_to PeopleCollectorStep.find_jurisdiction_url)
      else after_heuristics context (
          collect_pipeline_heuristics (all_records result) context.run_data.stop_reason
            result.progress)

  unfoldable pub save_output_transition : Context Rec Pre → Attempt Unit → Answer Rec Pre
  save_output_transition context (threw text) = raised text
  save_output_transition context (gave saved) =
      returned (with_progress context (percentage context.run_data 11))
        (go_to PeopleCollectorStep.send_success)

  unfoldable pub send_success_transition :
      Context Rec Pre → Attempt MaybeSendToGitHubStep → Answer Rec Pre
  send_success_transition context (threw text) = raised text
  send_success_transition context (gave result) =
      returned
        (with_progress
          (with_data context (record context.run_data { send_success_step = some result }))
          (percentage context.run_data 12))
        (status PipelineRunStatus.success)

  unfoldable pub send_error_transition :
      Context Rec Pre → Attempt MaybeSendToGitHubStep → Answer Rec Pre
  send_error_transition context (threw text) = returned context (status PipelineRunStatus.error)
  send_error_transition context (gave result) =
      returned (with_data context (record context.run_data { send_error_step = some result }))
        (status PipelineRunStatus.error)

  -- What the search found, against the address that the run has.
  unfoldable pub is_new_domain : Option String → String → Bool
  is_new_domain none url = false
  is_new_domain (some discovered) url = not (same_domain discovered url)

  unfoldable pub follow_discovered : Context Rec Pre → Option String → Answer Rec Pre
  unfolding failed_plainly from_urls
  follow_discovered context none = failed_plainly context PipelineRunErrorType.domain_inactive
  follow_discovered context (some discovered) =
      if same_domain discovered context.run_data.config.url
      then returned context (go_to PeopleCollectorStep.review_output)
      else returned
          (with_data context (record context.run_data {
            config = record { url = discovered; source_urls = some [] };
            frontier = from_urls canonical_url format_url (discovered ∷ []);
          }))
          (go_to PeopleCollectorStep.scrape_page)

  -- The root link's failure decides, unless there is none or a new domain was found.
  unfoldable pub after_search : Context Rec Pre → Option String → Option Link → Answer Rec Pre
  unfolding failed is_new_domain follow_discovered
  after_search context discovered none = follow_discovered context discovered
  after_search context discovered (some root) =
      if is_known root.failure_reason && not (is_new_domain discovered context.run_data.config.url)
      then failed context PipelineRunErrorType.domain_navigation_error
          (some (ErrorDetail.navigation root.failure_reason root.failure_source))
      else follow_discovered context discovered

  unfoldable pub find_jurisdiction_url_transition :
      Context Rec Pre → Attempt FindJurisdictionUrlStep → Answer Rec Pre
  unfolding after_search get_link
  find_jurisdiction_url_transition context (threw text) = raised text
  find_jurisdiction_url_transition context (gave result) =
      after_search
        (with_data context (record context.run_data { find_jurisdiction_url_step = some result }))
        result.discovered_url
        (get_link canonical_url context.run_data.frontier context.run_data.config.url)
