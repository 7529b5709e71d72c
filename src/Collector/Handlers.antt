-- ===== src/Collector/Handlers.antt =====
-- pipelines/src/runners/pipeline03_people_collector/transitions/main.py: what handles each state of a
-- run. What a step's own work gives (a page read, a model's answer, a request to cp.org) is an
-- argument, `World`; `same_domain`, and `percentage` for the progress shown, are parameters. The parts
-- of the run's data that no transition reads are left out.
mod Tests
pub mod Steps
pub mod Closing
pub mod Runner
pub mod Legal
pub mod Whole
pub mod Turned
pub mod Run
pub mod Review
use civicpatch_tools.Prelude.{
  ℕ, ◌+◌, String, Bool, true, false, not, ◌&&◌, ◌||◌, Option, none, some, List, [], ◌∷◌, ◌++◌, ◌==◌,
  map, length, all_of, nat_eqb, nat_eq, string_eq, if◌then◌else◌, option_eq,
}
use civicpatch_tools.Prelude.Dict.{Dict, values}
use civicpatch_tools.StateGraph.{PipelineRunStatus, State, status, step, is_empty}
use civicpatch_tools.Engine.{PipelineRunContext, Handled, returned, raised, Handler, Machine}
use civicpatch_tools.Collector.Graph.{
  PeopleCollectorStep, PeopleCollectorState, step_eq, people_collector_transitions,
}
use civicpatch_tools.Collector.Frontier.{
  Link, LinkStatus, status_eq, LinkFrontier, NavigationFailureReason, next_with_status,
  all_with_status, status_of, get_link, from_urls, add_front,
}
use civicpatch_tools.Collector.Scrape.{Outcome}
use civicpatch_tools.Collector.Scrape.{scrape_page as scrape_link}
use civicpatch_tools.Collector.Progress.{
  ProgressState, PipelineRunLimits, StopReason, is_short_of_expected, ProcessNext,
  next_process_content_state,
}
use civicpatch_tools.Collector.Progress.{cleanup as stop_for, scrape_page as keep_on}

-- shared/src/shared/utils/statuses.py
pub data PipelineRunErrorType : Type 0 where
  no_roster_found domain_inactive domain_navigation_error : PipelineRunErrorType

pub data PipelineIssue : Type 0 where
  cost_cap_reached : PipelineIssue
  fewer_than_expected : (found expected : ℕ) → PipelineIssue

-- `error_detail`: why a page was not reached, or an exception's text.
pub data ErrorDetail : Type 0 where
  nothing_known : ErrorDetail
  navigation : Option NavigationFailureReason → Option String → ErrorDetail
  exception_text : String → ErrorDetail

pub record PipelineRunConfig : Type 0 where
  pub url : String
  pub source_urls : Option (List String)

pub record ResearchMunicipalityStep : Type 0 where
  pub source_urls : List String

-- The records under each name, of which the transitions only ask whether there are any.
pub record ProcessPageContentStep (Rec : Type 0) : Type 0 where
  pub records : Dict String (List Rec)
  pub progress : ProgressState

pub record FindJurisdictionUrlStep : Type 0 where
  pub discovered_url : Option String

pub record MaybeSendToGitHubStep : Type 0 where
  pub status_text : String
  pub response_status_code : Option ℕ
  pub response_text : Option String

pub record PeopleCollectorData (Rec Pre : Type 0) : Type 0 where
  pub config : PipelineRunConfig
  pub frontier : LinkFrontier
  pub research_municipality_step : Option ResearchMunicipalityStep
  pub preprocess_page_content_step : Option Pre
  pub process_page_content_step : Option (ProcessPageContentStep Rec)
  pub find_jurisdiction_url_step : Option FindJurisdictionUrlStep
  pub send_success_step : Option MaybeSendToGitHubStep
  pub send_error_step : Option MaybeSendToGitHubStep
  pub issues : List PipelineIssue
  pub error_step : Option PipelineRunErrorType
  pub error_detail : Option ErrorDetail
  pub stop_reason : Option StopReason

-- A step gave its result or raised.
pub data Attempt (A : Type 0) : Type 0 where
  gave : A → Attempt A
  threw : String → Attempt A

-- What the steps give in one turn; a transition reads the one that it runs.
pub record World (Rec Pre : Type 0) : Type 0 where
  pub prepared : Attempt Unit
  pub researched : Attempt ResearchMunicipalityStep
  pub scraped : Outcome
  pub preprocessed : Attempt (LinkFrontier × Pre)
  pub processed : Attempt (LinkFrontier × ProcessPageContentStep Rec)
  pub total_cost : ℕ
  pub cleaned : Attempt Unit
  pub saved : Attempt Unit
  pub sent_success : Attempt MaybeSendToGitHubStep
  pub sent_error : Attempt MaybeSendToGitHubStep
  pub found_url : Attempt FindJurisdictionUrlStep

module _ {Rec : Type 0} where
  abbrev pub append_all : List (List Rec) → List Rec
  append_all [] = []
  append_all (group ∷ groups) = group ++ append_all groups

  unfoldable pub all_records : ProcessPageContentStep Rec → List Rec
  all_records step_data = append_all (values step_data.records)

abbrev pub is_known : {A : Type 0} → Option A → Bool
is_known none = false
is_known (some a) = true

unfoldable pub classify_all_failed_error : LinkFrontier → PipelineRunErrorType
unfolding all_with_status
classify_all_failed_error frontier =
    let error_links = all_with_status frontier (LinkStatus.error ∷ []) in
    if not (is_empty error_links) && all_of (λ l. is_known l.failure_reason) error_links
    then PipelineRunErrorType.domain_navigation_error
    else PipelineRunErrorType.domain_inactive

first_failure : List Link → ErrorDetail
first_failure [] = ErrorDetail.nothing_known
first_failure (l ∷ links) = ErrorDetail.navigation l.failure_reason l.failure_source

unfoldable pub navigation_error_detail : LinkFrontier → ErrorDetail
unfolding all_with_status first_failure
navigation_error_detail frontier = first_failure (all_with_status frontier (LinkStatus.error ∷ []))

-- `detail if error_type == DOMAIN_NAVIGATION_ERROR else None`
unfoldable pub detail_of : PipelineRunErrorType → LinkFrontier → Option ErrorDetail
unfolding navigation_error_detail
detail_of PipelineRunErrorType.domain_navigation_error frontier =
    some (navigation_error_detail frontier)
detail_of _ frontier = none

-- `_collect_pipeline_heuristics`: an error, or the issues to file.
pub data Heuristics : Type 0 where
  error_found : PipelineRunErrorType → Heuristics
  issues_found : List PipelineIssue → Heuristics

unfoldable pub collect_pipeline_heuristics :
    {Rec : Type 0} → List Rec → Option StopReason → ProgressState → Heuristics
unfolding is_short_of_expected
collect_pipeline_heuristics [] stop_reason progress =
    error_found PipelineRunErrorType.no_roster_found
collect_pipeline_heuristics (r ∷ records) (some StopReason.cost_cap_reached) progress =
    issues_found (PipelineIssue.cost_cap_reached ∷ [])
collect_pipeline_heuristics (r ∷ records) _ progress =
    if is_short_of_expected progress
    then issues_found (fewer_than_expected progress.current_data progress.required_data ∷ [])
    else issues_found []
