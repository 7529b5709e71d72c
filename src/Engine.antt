-- ===== src/Engine.antt =====
-- pipelines/src/runners/engine.py: the loop that walks a pipeline's run through its graph of states.
-- A run's handlers, and what cp.org and the clock answer in each turn of the loop, are arguments; the
-- calls that the loop makes are its output, in order. A call of cp.org that fails is caught and only
-- logged, so it changes no state: its failure is not told apart from its success.
mod Tests
pub mod Walk
pub mod Ending
use civicpatch_tools.Prelude.{
  ℕ, String, Bool, true, false, Option, none, some, List, [], ◌∷◌, ◌++◌, ◌==◌, mem, if◌then◌else◌,
  HasEq,
}
use civicpatch_tools.Prelude.Dict.{Dict, get}
use civicpatch_tools.Prelude.Texts.{cut}
use civicpatch_tools.StateGraph.{
  PipelineRunStatus, run_status_eqb, run_status_eq, State, status, step, state_eqb, state_eq,
  Transitions, is_empty, get_or_empty, with_engine_states, terminal_states, next_states,
}

pub record RunFailure (Step : Type 0) : Type 0 where
  pub failed_state : State Step
  pub error : String

abbrev pub failure_error_chars : ℕ
failure_error_chars = 500

-- domain/pipeline_run_context.py
pub record PipelineRunContext (Step Data : Type 0) : Type 0 where
  pub run_data : Data
  pub current_state : State Step
  pub pipeline_run_id : String
  pub created_at : ℕ
  pub updated_at : ℕ
  pub progress : ℕ
  pub failure : Option (RunFailure Step)

-- A handler returned a context and the state to go to, or it raised, with the exception's text.
pub data Handled (Step Data : Type 0) : Type 0 where
  returned : PipelineRunContext Step Data → State Step → Handled Step Data
  raised : String → Handled Step Data

abbrev pub Handler : Type 0 → Type 0 → Type 0 → Type 0
Handler Step Data World = PipelineRunContext Step Data → World → Handled Step Data

pub record Machine (Step Data World : Type 0) : Type 0 where
  pub transitions : Transitions Step
  pub handlers : Dict (State Step) (Handler Step Data World)
  pub submits_context : Bool

-- What cp.org says of the run, when it is asked whether it is cancelled.
pub data Poll (Step : Type 0) : Type 0 where
  answered : State Step → Poll Step
  unreachable : Poll Step

-- What happens outside the loop in one turn of it.
pub record Turn (Step World : Type 0) : Type 0 where
  pub polled : Poll Step
  pub polled_at : ℕ
  pub answers : World
  pub stepped_at : ℕ

pub data Call (Step Data : Type 0) : Type 0 where
  fetched : Call Step Data
  reported : PipelineRunContext Step Data → Call Step Data
  handled : State Step → Call Step Data
  persisted : PipelineRunContext Step Data → Call Step Data
  finally_reported : PipelineRunContext Step Data → ℕ → Call Step Data
  submitted : PipelineRunContext Step Data → Call Step Data

-- How one turn of the loop leaves it, and how the loop ends.
pub data Turned (Step Data : Type 0) : Type 0 where
  moved stopped : PipelineRunContext Step Data → Turned Step Data
  illegal_transition : PipelineRunContext Step Data → State Step → State Step → Turned Step Data
  no_handler : PipelineRunContext Step Data → State Step → Turned Step Data
  out_of_turns : PipelineRunContext Step Data → Turned Step Data

pub data Ended (Step Data : Type 0) : Type 0 where
  returned_context : PipelineRunContext Step Data → Ended Step Data
  pipeline_run_error : PipelineRunContext Step Data → Ended Step Data
  raised_illegal : State Step → State Step → Ended Step Data
  raised_key_error : State Step → Ended Step Data
  unfinished : PipelineRunContext Step Data → Ended Step Data

module _ {Step Data World : Type 0} ⦃eq : HasEq Step⦄ (machine : Machine Step Data World) where
  unfoldable pub says_cancelled : Poll Step → Bool
  unfolding state_eqb
  says_cancelled (answered s) = s == status PipelineRunStatus.cancelled
  says_cancelled unreachable = false

  -- The `try` around a handler, its `except` and its `else`.
  unfoldable pub after_handler :
      PipelineRunContext Step Data → ℕ → Handled Step Data → Turned Step Data
  unfolding next_states state_eqb
  after_handler ctx now (raised text) = moved (record ctx {
    current_state = status PipelineRunStatus.send_error;
    updated_at = now;
    failure =
        some (record { failed_state = ctx.current_state; error = cut failure_error_chars text });
  })
  after_handler ctx now (returned next next_state) =
      if mem next_state (next_states machine.transitions ctx.current_state)
      then moved (record next { current_state = next_state; updated_at = now })
      else illegal_transition next ctx.current_state next_state

  -- `persist_fn` sees the context at the end of a turn.
  unfoldable pub persists : Turned Step Data → List (Call Step Data)
  persists (moved next) = persisted next ∷ []
  persists _ = []

  unfoldable pub call_handler :
      PipelineRunContext Step Data
      → Turn Step World
      → Option (Handler Step Data World)
      → List (Call Step Data) × Turned Step Data
  unfolding after_handler persists
  call_handler ctx turn none = ([], no_handler ctx ctx.current_state)
  call_handler ctx turn (some handler) =
      let next = after_handler ctx turn.stepped_at (handler ctx turn.answers) in
      (handled ctx.current_state ∷ persists next, next)

  -- The body of the `while`.
  unfoldable pub run_turn :
      PipelineRunContext Step Data → Turn Step World → List (Call Step Data) × Turned Step Data
  unfolding says_cancelled call_handler get state_eqb
  run_turn ctx turn =
      if says_cancelled turn.polled
      then (
        fetched ∷ [],
        stopped (record ctx {
          current_state = status PipelineRunStatus.cancelled;
          updated_at = turn.polled_at;
        }),
      )
      else (let called = call_handler ctx turn (get ctx.current_state machine.handlers) in
          (fetched ∷ reported ctx ∷ called.0, called.1))

  unfoldable pub go_on :
      (PipelineRunContext Step Data → List (Call Step Data) × Turned Step Data)
      → List (Call Step Data) × Turned Step Data
      → List (Call Step Data) × Turned Step Data
  go_on rest (calls, moved ctx) = let after = rest ctx in (calls ++ after.0, after.1)
  go_on rest (calls, ended) = (calls, ended)

  unfoldable pub run_loop :
      PipelineRunContext Step Data
      → List (Turn Step World)
      → List (Call Step Data) × Turned Step Data
  unfolding run_turn go_on terminal_states state_eqb
  run_loop ctx [] =
      if mem ctx.current_state (terminal_states machine.transitions)
      then ([], stopped ctx)
      else ([], out_of_turns ctx)
  run_loop ctx (turn ∷ turns) =
      let rest = go_on (λ next. run_loop next turns) (run_turn ctx turn) in
      if mem ctx.current_state (terminal_states machine.transitions)
      then ([], stopped ctx)
      else rest

  -- `_finish`: the run's last status, then its context where the machine sends one.
  unfoldable pub finish : PipelineRunContext Step Data → List (Call Step Data)
  unfolding state_eqb
  finish ctx =
      let final_progress =
        if ctx.current_state == status PipelineRunStatus.success then 100 else ctx.progress in
      finally_reported ctx final_progress
      ∷ (if machine.submits_context then submitted ctx ∷ [] else [])

  -- The `finally`, and what the caller then gets.
  unfoldable pub end_run :
      List (Call Step Data) × Turned Step Data → List (Call Step Data) × Ended Step Data
  unfolding finish state_eqb
  end_run (calls, stopped ctx) = (
    calls ++ finish ctx,
    if ctx.current_state == status PipelineRunStatus.error
        then pipeline_run_error ctx
        else returned_context ctx,
  )
  end_run (calls, illegal_transition ctx current requested) =
      (calls ++ finish ctx, raised_illegal current requested)
  end_run (calls, no_handler ctx current) = (calls ++ finish ctx, raised_key_error current)
  end_run (calls, out_of_turns ctx) = (calls, unfinished ctx)
  end_run (calls, moved ctx) = (calls, unfinished ctx)

  unfoldable pub run_pipeline :
      PipelineRunContext Step Data
      → ℕ
      → List (Turn Step World)
      → List (Call Step Data) × Ended Step Data
  unfolding run_loop end_run
  run_pipeline context now turns =
      end_run (run_loop (record context { created_at = now; updated_at = now }) turns)
