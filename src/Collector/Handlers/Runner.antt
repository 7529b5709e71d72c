-- ===== src/Collector/Handlers/Runner.antt =====
-- `TRANSITION_MAP` of pipelines/src/runners/pipeline03_people_collector/transitions/main.py, and the
-- machine that the engine runs.
use civicpatch_tools.Prelude.{ℕ, String, Bool, false, [], ◌∷◌, nat_eq, string_eq, option_eq}
use civicpatch_tools.Prelude.Dict.{Dict}
use civicpatch_tools.StateGraph.{PipelineRunStatus, status, step}
use civicpatch_tools.Engine.{Handler, Machine}
use civicpatch_tools.Collector.Graph.{
  PeopleCollectorStep, PeopleCollectorState, step_eq, people_collector_transitions,
}
use civicpatch_tools.Collector.Frontier.{LinkStatus, status_eq, next_with_status, all_with_status}
use civicpatch_tools.Collector.Progress.{PipelineRunLimits}
use civicpatch_tools.Collector.Handlers.{PeopleCollectorData, World}
use civicpatch_tools.Collector.Handlers.Steps.{
  start_job, research_municipality_transition, scrape_page_transition,
  preprocess_page_content_transition, process_page_content_transition,
}
use civicpatch_tools.Collector.Handlers.Closing.{
  cleanup_transition, review_output_transition, save_output_transition, send_success_transition,
  send_error_transition, find_jurisdiction_url_transition,
}

module _ {Rec Pre : Type 0} (limits : PipelineRunLimits)
    (canonical_url format_url : String → String) (same_domain : String → String → Bool)
    (percentage : PeopleCollectorData Rec Pre → ℕ → ℕ) where
  abbrev pub transition_map :
      Dict PeopleCollectorState
        (Handler PeopleCollectorStep (PeopleCollectorData Rec Pre) (World Rec Pre))
  transition_map =
      (
        status PipelineRunStatus.init,
        λ context world.
            start_job limits canonical_url format_url same_domain percentage context world.prepared,
      )
      ∷ (
        step PeopleCollectorStep.research_municipality,
        λ context world.
            research_municipality_transition limits canonical_url format_url same_domain percentage
              context world.researched,
      )
      ∷ (
        step PeopleCollectorStep.scrape_page,
        λ context world.
            scrape_page_transition limits canonical_url format_url same_domain percentage context
              world (next_with_status context.run_data.frontier LinkStatus.pending),
      )
      ∷ (
        step PeopleCollectorStep.preprocess_page_content,
        λ context world.
            preprocess_page_content_transition limits canonical_url format_url same_domain
              percentage context world.preprocessed
              (next_with_status context.run_data.frontier LinkStatus.scraped),
      )
      ∷ (
        step PeopleCollectorStep.process_page_content,
        λ context world.
            process_page_content_transition limits canonical_url format_url same_domain percentage
              context world world.processed
              (all_with_status context.run_data.frontier (LinkStatus.preprocessed ∷ [])),
      )
      ∷ (
        step PeopleCollectorStep.cleanup,
        λ context world.
            cleanup_transition canonical_url format_url same_domain percentage context
              world.cleaned,
      )
      ∷ (
        step PeopleCollectorStep.review_output,
        λ context world.
            review_output_transition canonical_url format_url same_domain percentage context
              context.run_data.process_page_content_step,
      )
      ∷ (
        step PeopleCollectorStep.save_output,
        λ context world.
            save_output_transition canonical_url format_url same_domain percentage context
              world.saved,
      )
      ∷ (
        step PeopleCollectorStep.send_success,
        λ context world.
            send_success_transition canonical_url format_url same_domain percentage context
              world.sent_success,
      )
      ∷ (
        status PipelineRunStatus.send_error,
        λ context world.
            send_error_transition canonical_url format_url same_domain percentage context
              world.sent_error,
      )
      ∷ (
        step PeopleCollectorStep.find_jurisdiction_url,
        λ context world.
            find_jurisdiction_url_transition canonical_url format_url same_domain percentage context
              world.found_url,
      )
      ∷ []

  -- Pipeline 3 sends its own context.
  abbrev pub people_collector :
      Machine PeopleCollectorStep (PeopleCollectorData Rec Pre) (World Rec Pre)
  people_collector = record {
    transitions = people_collector_transitions;
    handlers = transition_map;
    submits_context = false;
  }
