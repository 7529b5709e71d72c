-- ===== src/Collector/Handlers/Steps.antt =====
-- pipelines/src/runners/pipeline03_people_collector/transitions/main.py: the transitions, one for each
-- state, and `TRANSITION_MAP`.
use civicpatch_tools.Prelude.{
  ℕ, String, Bool, not, ◌&&◌, Option, none, some, List, [], ◌∷◌, ◌==◌, length, nat_eq, string_eq,
  if◌then◌else◌, option_eq,
}
use civicpatch_tools.StateGraph.{PipelineRunStatus, status, step, is_empty}
use civicpatch_tools.Engine.{PipelineRunContext, Handled, returned, raised}
use civicpatch_tools.Collector.Graph.{PeopleCollectorStep, PeopleCollectorState, step_eq}
use civicpatch_tools.Collector.Frontier.{
  Link, LinkStatus, status_eq, LinkFrontier, all_with_status, status_of, from_urls, add_front,
}
use civicpatch_tools.Collector.Scrape.{scrape_page as scrape_link}
use civicpatch_tools.Collector.Progress.{
  PipelineRunLimits, StopReason, ProcessNext, next_process_content_state,
}
use civicpatch_tools.Collector.Progress.{cleanup as stop_for, scrape_page as keep_on}
use civicpatch_tools.Collector.Handlers.{
  PipelineRunErrorType, ErrorDetail, PipelineRunConfig, ResearchMunicipalityStep,
  ProcessPageContentStep, FindJurisdictionUrlStep, PeopleCollectorData, Attempt, gave, threw, World,
  classify_all_failed_error, detail_of,
}

abbrev pub go_to : PeopleCollectorStep → PeopleCollectorState
go_to s = step s

abbrev pub send_error : PeopleCollectorState
send_error = status PipelineRunStatus.send_error

abbrev pub Context : Type 0 → Type 0 → Type 0
Context Rec Pre = PipelineRunContext PeopleCollectorStep (PeopleCollectorData Rec Pre)

abbrev pub Answer : Type 0 → Type 0 → Type 0
Answer Rec Pre = Handled PeopleCollectorStep (PeopleCollectorData Rec Pre)

module _ {Rec Pre : Type 0} where
  -- `_next_context`, for the data and for the progress.
  abbrev pub with_data : Context Rec Pre → PeopleCollectorData Rec Pre → Context Rec Pre
  with_data context new_data = record context { run_data = new_data }

  abbrev pub with_progress : Context Rec Pre → ℕ → Context Rec Pre
  with_progress context progress = record context { progress = progress }

  unfoldable pub failed :
      Context Rec Pre → PipelineRunErrorType → Option ErrorDetail → Answer Rec Pre
  failed context error_type detail =
      returned
        (with_data context
          (record context.run_data { error_step = some error_type; error_detail = detail }))
        send_error

  -- The same, where no detail is given.
  unfoldable pub failed_plainly : Context Rec Pre → PipelineRunErrorType → Answer Rec Pre
  failed_plainly context error_type =
      returned (with_data context (record context.run_data { error_step = some error_type }))
        send_error

  -- Nothing of the site could be read: search for its address once, then give up.
  unfoldable pub all_pages_failed :
      Context Rec Pre → Option FindJurisdictionUrlStep → Answer Rec Pre
  unfolding failed classify_all_failed_error detail_of
  all_pages_failed context none = returned context (go_to PeopleCollectorStep.find_jurisdiction_url)
  all_pages_failed context (some found) =
      let error_type = classify_all_failed_error context.run_data.frontier in
      failed context error_type (detail_of error_type context.run_data.frontier)

-- The state that `next_process_content_state` names, and the reason for stopping.
abbrev pub state_of : ProcessNext → PeopleCollectorState
state_of (stop_for reason) = go_to PeopleCollectorStep.cleanup
state_of keep_on = go_to PeopleCollectorStep.scrape_page

abbrev pub reason_of : ProcessNext → Option StopReason
reason_of (stop_for reason) = reason
reason_of keep_on = none

module _ {Rec Pre : Type 0} (limits : PipelineRunLimits)
    (canonical_url format_url : String → String) (same_domain : String → String → Bool)
    (percentage : PeopleCollectorData Rec Pre → ℕ → ℕ) where
  unfoldable pub start_job : Context Rec Pre → Attempt Unit → Answer Rec Pre
  unfolding from_urls
  start_job context (threw text) = raised text
  start_job context (gave prepared) =
      returned
        (with_data context (record context.run_data {
          frontier = from_urls canonical_url format_url (context.run_data.config.url ∷ []);
        }))
        (go_to PeopleCollectorStep.research_municipality)

  -- `add_front(source_urls)` if there are any.
  unfoldable pub seed : LinkFrontier → List String → LinkFrontier
  unfolding add_front
  seed frontier [] = frontier
  seed frontier (url ∷ urls) = add_front canonical_url format_url frontier (url ∷ urls)

  unfoldable pub research_municipality_transition :
      Context Rec Pre → Attempt ResearchMunicipalityStep → Answer Rec Pre
  unfolding seed
  research_municipality_transition context (threw text) = raised text
  research_municipality_transition context (gave result) =
      returned
        (with_progress
          (with_data context (record context.run_data {
            research_municipality_step = some result;
            frontier = seed context.run_data.frontier result.source_urls;
          }))
          (percentage context.run_data 1))
        (go_to PeopleCollectorStep.scrape_page)

  -- Every known link failed or had no content.
  unfoldable pub all_failed : LinkFrontier → Bool
  unfolding all_with_status
  all_failed frontier =
      let unprocessable =
        all_with_status frontier (LinkStatus.error ∷ LinkStatus.preprocessed_no_content ∷ []) in
      not (is_empty frontier.links) && length unprocessable == length frontier.links

  -- The root link was redirected to another domain: the run's address follows.
  unfoldable pub redirected : PipelineRunConfig → String → String → PipelineRunConfig
  redirected config url final_url =
      if url == config.url && not (same_domain final_url url)
      then record config { url = final_url }
      else config

  unfoldable pub scrape_page_transition :
      Context Rec Pre → World Rec Pre → Option Link → Answer Rec Pre
  unfolding all_pages_failed all_failed redirected scrape_link status_of
  scrape_page_transition context world none =
      if all_failed context.run_data.frontier
      then all_pages_failed context context.run_data.find_jurisdiction_url_step
      else returned context (go_to PeopleCollectorStep.cleanup)
  scrape_page_transition context world (some page) =
      let scraped = scrape_link canonical_url context.run_data.frontier page world.scraped in
      returned
        (with_progress
          (with_data context (record context.run_data {
            frontier = scraped.0;
            config = redirected context.run_data.config page.url scraped.1;
          }))
          (percentage context.run_data 3))
        (if status_of canonical_url scraped.0 page.url == some LinkStatus.scraped
          then go_to PeopleCollectorStep.preprocess_page_content
          else go_to PeopleCollectorStep.scrape_page)

  unfoldable pub preprocess_page_content_transition :
      Context Rec Pre → Attempt (LinkFrontier × Pre) → Option Link → Answer Rec Pre
  unfolding all_pages_failed all_with_status status_of
  preprocess_page_content_transition context preprocessed none =
      if is_empty (all_with_status context.run_data.frontier (LinkStatus.preprocessed ∷ []))
      then all_pages_failed context context.run_data.find_jurisdiction_url_step
      else returned context (go_to PeopleCollectorStep.process_page_content)
  preprocess_page_content_transition context (threw text) (some page) = raised text
  preprocess_page_content_transition context (gave (frontier, result)) (some page) =
      returned
        (with_progress
          (with_data context (record context.run_data {
            frontier = frontier;
            preprocess_page_content_step = some result;
          }))
          (percentage context.run_data 4))
        (if status_of canonical_url frontier page.url == some LinkStatus.preprocessed
          then go_to PeopleCollectorStep.process_page_content
          else go_to PeopleCollectorStep.scrape_page)

  unfoldable pub process_page_content_transition :
      Context Rec Pre
      → World Rec Pre
      → Attempt (LinkFrontier × ProcessPageContentStep Rec)
      → List Link
      → Answer Rec Pre
  unfolding all_with_status next_process_content_state
  process_page_content_transition context world processed [] =
      returned context (go_to PeopleCollectorStep.cleanup)
  process_page_content_transition context world (threw text) (page ∷ pages) =
      returned
        (with_data context (record context.run_data {
          error_step = none;
          error_detail = some (ErrorDetail.exception_text text);
        }))
        send_error
  process_page_content_transition context world (gave (frontier, result)) (page ∷ pages) =
      let links_processed =
        all_with_status frontier (LinkStatus.processed_irrelevant ∷ LinkStatus.done ∷ []) in
      let next =
        next_process_content_state (length links_processed) world.total_cost limits
          result.progress in
      returned
        (with_progress
          (with_data context (record context.run_data {
            frontier = frontier;
            process_page_content_step = some result;
            stop_reason = reason_of next;
          }))
          (percentage context.run_data 5))
        (state_of next)
