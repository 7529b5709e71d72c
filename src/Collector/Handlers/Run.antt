-- ===== src/Collector/Handlers/Run.antt =====
-- A people collector's run, from the first state on.
use civicpatch_tools.Prelude.{
  ℕ, String, ◌≡◌, inl, inr, Bool, true, List, [], ◌∷◌, ◌==◌, mem, Bool-cases,
}
use civicpatch_tools.StateGraph.{PipelineRunStatus, status, state_eq, terminal_states}
use civicpatch_tools.Engine.{
  Turn, Call, Turned, moved, stopped, illegal_transition, no_handler, out_of_turns, Ended,
  raised_illegal, raised_key_error, run_turn, go_on, run_loop, end_run, run_pipeline,
}
use civicpatch_tools.Engine.Walk.{Walks, run_pipeline-Walks}
use civicpatch_tools.Collector.Graph.{PeopleCollectorStep, step_eq, people_collector_transitions}
use civicpatch_tools.Collector.Progress.{PipelineRunLimits}
use civicpatch_tools.Collector.Handlers.{PeopleCollectorData, World}
use civicpatch_tools.Collector.Handlers.Steps.{Context}
use civicpatch_tools.Collector.Handlers.Runner.{people_collector}
use civicpatch_tools.Collector.Handlers.Turned.{
  is_placed, IsOrderly, machine, run_turn-IsOrderly, people_collector-HandledStatesGoOn,
}

module _ {Rec Pre : Type 0} (limits : PipelineRunLimits)
    (canonical_url format_url : String → String) (same_domain : String → String → Bool)
    (percentage : PeopleCollectorData Rec Pre → ℕ → ℕ) where
  -- The loop from a placed state ends in order, too.
  go_on-IsOrderly :
      (next : Context Rec Pre
        → List (Call PeopleCollectorStep (PeopleCollectorData Rec Pre))
          × Turned PeopleCollectorStep (PeopleCollectorData Rec Pre))
      → ((ctx : Context Rec Pre) → is_placed ctx.current_state ≡ true → IsOrderly (next ctx).1)
      → (done : List (Call PeopleCollectorStep (PeopleCollectorData Rec Pre))
          × Turned PeopleCollectorStep (PeopleCollectorData Rec Pre))
      → IsOrderly done.1
      → IsOrderly
          (go_on (machine limits canonical_url format_url same_domain percentage) next done).1
  unfolding go_on
  go_on-IsOrderly next after (calls, moved ctx) w = after ctx w
  go_on-IsOrderly next after (calls, stopped ctx) w = w
  go_on-IsOrderly next after (calls, illegal_transition ctx a b) w = w
  go_on-IsOrderly next after (calls, no_handler ctx a) w = w
  go_on-IsOrderly next after (calls, out_of_turns ctx) w = w

  run_loop-IsOrderly :
      (ctx : Context Rec Pre) (turns : List (Turn PeopleCollectorStep (World Rec Pre)))
      → is_placed ctx.current_state ≡ true
      → IsOrderly
          (run_loop (machine limits canonical_url format_url same_domain percentage) ctx turns).1
  unfolding run_loop
  run_loop-IsOrderly ctx [] here =
      elim (Bool-cases (mem ctx.current_state (terminal_states people_collector_transitions))) [
        | inl t ↦ rw t tt
        | inr f ↦ rw f tt
      ]
  run_loop-IsOrderly ctx (turn ∷ turns) here =
      elim (Bool-cases (mem ctx.current_state (terminal_states people_collector_transitions))) [
        | inl t ↦ rw t tt
        | inr f ↦ rw f (
            go_on-IsOrderly
              (λ next.
                run_loop (machine limits canonical_url format_url same_domain percentage) next
                  turns)
              (λ next placed. run_loop-IsOrderly next turns placed)
              (run_turn (machine limits canonical_url format_url same_domain percentage) ctx turn)
              (run_turn-IsOrderly limits canonical_url format_url same_domain percentage ctx turn
                here f))
      ]

  -- Nothing was raised but, perhaps, the run's own error.
  abbrev pub EndsInOrder : Ended PeopleCollectorStep (PeopleCollectorData Rec Pre) → Type 0
  EndsInOrder (raised_illegal current requested) = ⊥
  EndsInOrder (raised_key_error current) = ⊥
  EndsInOrder _ = Unit

  end_run-EndsInOrder :
      (done : List (Call PeopleCollectorStep (PeopleCollectorData Rec Pre))
        × Turned PeopleCollectorStep (PeopleCollectorData Rec Pre))
      → IsOrderly done.1
      → EndsInOrder
          (end_run (machine limits canonical_url format_url same_domain percentage) done).1
  unfolding end_run
  end_run-EndsInOrder (calls, moved ctx) w = tt
  end_run-EndsInOrder (calls, stopped ctx) w =
      elim (Bool-cases (ctx.current_state == status PipelineRunStatus.error)) [
        | inl t ↦ rw t tt
        | inr f ↦ rw f tt
      ]
  end_run-EndsInOrder (calls, illegal_transition ctx a b) w = absurd w
  end_run-EndsInOrder (calls, no_handler ctx a) w = absurd w
  end_run-EndsInOrder (calls, out_of_turns ctx) w = tt

  -- A people collector's run that starts in a state which has a handler, or in a terminal one, never
  -- ends on a transition that its graph does not allow nor on a state without a handler, whatever
  -- its steps and cp.org do.
  pub people_collector-EndsInOrder :
      (ctx : Context Rec Pre) (now : ℕ) (turns : List (Turn PeopleCollectorStep (World Rec Pre)))
      → is_placed ctx.current_state ≡ true
      → EndsInOrder
          (run_pipeline
            (people_collector limits canonical_url format_url same_domain percentage)
            ctx
            now
            turns).1
  unfolding run_pipeline
  people_collector-EndsInOrder ctx now turns here =
      end_run-EndsInOrder _
        (run_loop-IsOrderly (record ctx { created_at = now; updated_at = now }) turns here)

  -- A people collector's run keeps to its graph from whatever state it starts in, whatever its
  -- steps and cp.org do.
  pub people_collector-Walks :
      (ctx : Context Rec Pre) (now : ℕ) (turns : List (Turn PeopleCollectorStep (World Rec Pre)))
      → Walks
          (people_collector limits canonical_url format_url same_domain percentage)
          ctx.current_state
          (run_pipeline
            (people_collector limits canonical_url format_url same_domain percentage)
            ctx
            now
            turns).0
  people_collector-Walks ctx now turns =
      run_pipeline-Walks (people_collector limits canonical_url format_url same_domain percentage)
        (people_collector-HandledStatesGoOn limits canonical_url format_url same_domain percentage)
        ctx now turns
