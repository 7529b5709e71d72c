-- ===== src/Collector/Handlers/Whole.antt =====
-- `TRANSITION_MAP` against the graph.
use civicpatch_tools.Prelude.{
  ℕ, String, ◌≡◌, refl, Bool, some, All, All-of_Has, nat_eq, string_eq, option_eq,
}
use civicpatch_tools.Prelude.Dict.{get, Has-keys_of_get}
use civicpatch_tools.StateGraph.{PipelineRunStatus, status, step, state_eq}
use civicpatch_tools.Engine.{Handler}
use civicpatch_tools.Collector.Graph.{PeopleCollectorStep, PeopleCollectorState, step_eq}
use civicpatch_tools.Collector.Frontier.{status_eq}
use civicpatch_tools.Collector.Progress.{PipelineRunLimits}
use civicpatch_tools.Collector.Handlers.{
  ResearchMunicipalityStep, MaybeSendToGitHubStep, PeopleCollectorData, Attempt, gave, threw, World,
}
use civicpatch_tools.Collector.Handlers.Steps.{Context, start_job, research_municipality_transition}
use civicpatch_tools.Collector.Handlers.Closing.{
  cleanup_transition, save_output_transition, send_success_transition, send_error_transition,
}
use civicpatch_tools.Collector.Handlers.Runner.{transition_map}
use civicpatch_tools.Collector.Handlers.Legal.{
  is_allowed, IsAllowed, scrape_page_transition-IsAllowed, preprocess-IsAllowed, process-IsAllowed,
  review-IsAllowed, find-IsAllowed,
}

module _ {Rec Pre : Type 0} (limits : PipelineRunLimits)
    (canonical_url format_url : String → String) (same_domain : String → String → Bool)
    (percentage : PeopleCollectorData Rec Pre → ℕ → ℕ) where
  abbrev pub StaysInGraph :
      PeopleCollectorState
        × Handler PeopleCollectorStep (PeopleCollectorData Rec Pre) (World Rec Pre)
      → Type 0
  StaysInGraph (s, handler) =
      (context : Context Rec Pre) (world : World Rec Pre) → IsAllowed s (handler context world)

  start_job-IsAllowed :
      (context : Context Rec Pre) (prepared : Attempt Unit)
      → IsAllowed
          (status PipelineRunStatus.init)
          (start_job limits canonical_url format_url same_domain percentage context prepared)
  unfolding is_allowed start_job
  start_job-IsAllowed context (threw text) = tt
  start_job-IsAllowed context (gave prepared) = refl

  research-IsAllowed :
      (context : Context Rec Pre) (researched : Attempt ResearchMunicipalityStep)
      → IsAllowed (step PeopleCollectorStep.research_municipality) (
          research_municipality_transition limits canonical_url format_url same_domain percentage
            context researched)
  unfolding is_allowed research_municipality_transition
  research-IsAllowed context (threw text) = tt
  research-IsAllowed context (gave result) = refl

  cleanup-IsAllowed :
      (context : Context Rec Pre) (done : Attempt Unit)
      → IsAllowed
          (step PeopleCollectorStep.cleanup)
          (cleanup_transition canonical_url format_url same_domain percentage context done)
        × IsAllowed
            (step PeopleCollectorStep.save_output)
            (save_output_transition canonical_url format_url same_domain percentage context done)
  unfolding is_allowed cleanup_transition save_output_transition
  cleanup-IsAllowed context (threw text) = (tt, tt)
  cleanup-IsAllowed context (gave done) = (refl, refl)

  send-IsAllowed :
      (context : Context Rec Pre) (sent : Attempt MaybeSendToGitHubStep)
      → IsAllowed
          (step PeopleCollectorStep.send_success)
          (send_success_transition canonical_url format_url same_domain percentage context sent)
        × IsAllowed
            (status PipelineRunStatus.send_error)
            (send_error_transition canonical_url format_url same_domain percentage context sent)
  unfolding is_allowed send_success_transition send_error_transition
  send-IsAllowed context (threw text) = (tt, refl)
  send-IsAllowed context (gave result) = (refl, refl)

  transition_map-StaysInGraph :
      All StaysInGraph (transition_map limits canonical_url format_url same_domain percentage)
  transition_map-StaysInGraph = (
    λ c w. start_job-IsAllowed c w.prepared,
    (
      λ c w. research-IsAllowed c w.researched,
      (
        λ c w.
            scrape_page_transition-IsAllowed limits canonical_url format_url same_domain percentage
              c w _,
        (
          λ c w.
              preprocess-IsAllowed limits canonical_url format_url same_domain percentage c
                w.preprocessed _,
          (
            λ c w.
                process-IsAllowed limits canonical_url format_url same_domain percentage c w
                  w.processed _,
            (
              λ c w. (cleanup-IsAllowed c w.cleaned).0,
              (
                λ c w.
                    review-IsAllowed limits canonical_url format_url same_domain percentage c
                      c.run_data.process_page_content_step,
                (
                  λ c w. (cleanup-IsAllowed c w.saved).1,
                  (
                    λ c w. (send-IsAllowed c w.sent_success).0,
                    (
                      λ c w. (send-IsAllowed c w.sent_error).1,
                      (
                        λ c w.
                            find-IsAllowed limits canonical_url format_url same_domain percentage c
                              w.found_url,
                        tt,
                      ),
                    ),
                  ),
                ),
              ),
            ),
          ),
        ),
      ),
    ),
  )

  -- Whatever its step's work gives, the handler of a state raises or names a state that the graph
  -- allows after it.
  pub handlers-IsAllowed :
      (s : PeopleCollectorState)
      (handler : Handler PeopleCollectorStep (PeopleCollectorData Rec Pre) (World Rec Pre))
      → get s (transition_map limits canonical_url format_url same_domain percentage) ≡ some handler
      → (context : Context Rec Pre) (world : World Rec Pre) → IsAllowed s (handler context world)
  handlers-IsAllowed s handler found =
      All-of_Has StaysInGraph
        (transition_map limits canonical_url format_url same_domain percentage)
        transition_map-StaysInGraph
        (Has-keys_of_get s handler
          (transition_map limits canonical_url format_url same_domain percentage) found)
