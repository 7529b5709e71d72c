-- ===== src/Engine/Tests.antt =====
-- A pipeline of one step that works or raises.
use civicpatch_tools.Prelude.{
  String, ◌≡◌, refl, Bool, true, false, some, none, List, [], ◌∷◌, string_eq, arith, if◌then◌else◌,
}
use civicpatch_tools.Prelude.Dict.{get}
use civicpatch_tools.Prelude.Texts.{cut}
use civicpatch_tools.StateGraph.{PipelineRunStatus, status, step, state_eq, state_eqb}
use civicpatch_tools.Engine.{
  PipelineRunContext, returned, raised, Machine, unreachable, Turn, run_pipeline, returned_context,
  pipeline_run_error,
}
use civicpatch_tools.Engine.Walk.{Walks, HandledStatesGoOn, run_pipeline-Walks}

abbrev working : Machine String Unit Bool
working = record {
  transitions =
      (status PipelineRunStatus.init, step "work" ∷ [])
      ∷ (step "work", status PipelineRunStatus.success ∷ [])
      ∷ (status PipelineRunStatus.send_error, status PipelineRunStatus.error ∷ [])
      ∷ (status PipelineRunStatus.success, [])
      ∷ (status PipelineRunStatus.error, [])
      ∷ (status PipelineRunStatus.cancelled, [])
      ∷ [];
  handlers =
      (status PipelineRunStatus.init, λ ctx works. returned ctx (step "work"))
      ∷ (
        step "work",
        λ ctx works.
            if works
            then returned ctx (status PipelineRunStatus.success)
            else raised "ValueError: no",
      )
      ∷ (
        status PipelineRunStatus.send_error,
        λ ctx works. returned ctx (status PipelineRunStatus.error),
      )
      ∷ [];
  submits_context = false;
}

abbrev start : PipelineRunContext String Unit
start = record {
  run_data = tt;
  current_state = status PipelineRunStatus.init;
  pipeline_run_id = "run";
  created_at = 0;
  updated_at = 0;
  progress = 40;
  failure = none;
}

abbrev turn : Bool → Turn String Bool
turn works = record { polled = unreachable; polled_at = 0; answers = works; stepped_at = 7 }

abbrev good : List (Turn String Bool)
good = turn true ∷ turn true ∷ []

abbrev bad : List (Turn String Bool)
bad = turn true ∷ turn false ∷ turn true ∷ []

run_pipeline-good :
    (run_pipeline working start 3 good).1
    ≡ returned_context (record start {
      created_at = 3;
      updated_at = 7;
      current_state = status PipelineRunStatus.success;
    })
unfolding run_pipeline
run_pipeline-good = refl

run_pipeline-bad :
    (run_pipeline working start 3 bad).1
    ≡ pipeline_run_error (record start {
      created_at = 3;
      updated_at = 7;
      current_state = status PipelineRunStatus.error;
      failure = some (record { failed_state = step "work"; error = "ValueError: no" });
    })
unfolding run_pipeline cut
run_pipeline-bad = refl

working-HandledStatesGoOn : HandledStatesGoOn working
unfolding get state_eqb
working-HandledStatesGoOn s h e = ground arith

run_pipeline-Walks_example :
    Walks working (status PipelineRunStatus.init) (run_pipeline working start 3 bad).0
run_pipeline-Walks_example = run_pipeline-Walks working working-HandledStatesGoOn start 3 bad
