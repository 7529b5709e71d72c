-- ===== src/Collector/Graph.antt =====
-- pipelines/src/runners/pipeline03_people_collector/transitions/graph.py: the states of a people
-- collector's run and where each may lead. `PeopleCollectorStep` is in its schemas.py.
use civicpatch_tools.Prelude.{ℕ, ◌≡◌, ◌↔◌, Bool, true, [], ◌∷◌, arith, HasEq, nat_eqb}
use civicpatch_tools.StateGraph.{PipelineRunStatus, State, status, step, Transitions}

pub data PeopleCollectorStep : Type 0 where
  research_municipality scrape_page preprocess_page_content : PeopleCollectorStep
  process_page_content cleanup review_output save_output : PeopleCollectorStep
  send_success find_jurisdiction_url : PeopleCollectorStep

step_place : PeopleCollectorStep → ℕ
step_place PeopleCollectorStep.research_municipality = 0
step_place PeopleCollectorStep.scrape_page = 1
step_place PeopleCollectorStep.preprocess_page_content = 2
step_place PeopleCollectorStep.process_page_content = 3
step_place PeopleCollectorStep.cleanup = 4
step_place PeopleCollectorStep.review_output = 5
step_place PeopleCollectorStep.save_output = 6
step_place PeopleCollectorStep.send_success = 7
step_place PeopleCollectorStep.find_jurisdiction_url = 8

unfoldable pub step_eqb : PeopleCollectorStep → PeopleCollectorStep → Bool
unfolding step_place
step_eqb a b = nat_eqb (step_place a) (step_place b)

pub step_eqb_iff : (a b : PeopleCollectorStep) → (step_eqb a b ≡ true) ↔ (a ≡ b)
unfolding step_eqb
step_eqb_iff a b = ground arith

instance abbrev pub step_eq : HasEq PeopleCollectorStep
step_eq = record { eqb = step_eqb; eqb_iff = step_eqb_iff }

abbrev pub PeopleCollectorState : Type 0
PeopleCollectorState = State PeopleCollectorStep

abbrev pub people_collector_transitions : Transitions PeopleCollectorStep
people_collector_transitions =
    (status PipelineRunStatus.pending, status PipelineRunStatus.running ∷ [])
    ∷ (status PipelineRunStatus.running, status PipelineRunStatus.init ∷ [])
    ∷ (status PipelineRunStatus.init, step PeopleCollectorStep.research_municipality ∷ [])
    ∷ (step PeopleCollectorStep.research_municipality, step PeopleCollectorStep.scrape_page ∷ [])
    ∷ (
      step PeopleCollectorStep.scrape_page,
      step PeopleCollectorStep.preprocess_page_content
          ∷ step PeopleCollectorStep.scrape_page
          ∷ step PeopleCollectorStep.cleanup
          ∷ step PeopleCollectorStep.find_jurisdiction_url
          ∷ [],
    )
    ∷ (
      step PeopleCollectorStep.preprocess_page_content,
      step PeopleCollectorStep.process_page_content
          ∷ step PeopleCollectorStep.scrape_page
          ∷ step PeopleCollectorStep.find_jurisdiction_url
          ∷ [],
    )
    ∷ (
      step PeopleCollectorStep.process_page_content,
      step PeopleCollectorStep.cleanup ∷ step PeopleCollectorStep.scrape_page ∷ [],
    )
    ∷ (step PeopleCollectorStep.cleanup, step PeopleCollectorStep.review_output ∷ [])
    ∷ (
      step PeopleCollectorStep.review_output,
      step PeopleCollectorStep.save_output ∷ step PeopleCollectorStep.find_jurisdiction_url ∷ [],
    )
    ∷ (
      step PeopleCollectorStep.find_jurisdiction_url,
      step PeopleCollectorStep.review_output ∷ step PeopleCollectorStep.scrape_page ∷ [],
    )
    ∷ (step PeopleCollectorStep.save_output, step PeopleCollectorStep.send_success ∷ [])
    ∷ (step PeopleCollectorStep.send_success, status PipelineRunStatus.success ∷ [])
    ∷ (status PipelineRunStatus.send_error, status PipelineRunStatus.error ∷ [])
    ∷ (status PipelineRunStatus.success, [])
    ∷ (status PipelineRunStatus.error, [])
    ∷ (status PipelineRunStatus.cancelled, [])
    ∷ (status PipelineRunStatus.resolved, [])
    ∷ []
