-- ===== src/Engine/Ending.antt =====
-- The ends of a run and the calls that tell of them.
use civicpatch_tools.Prelude.{
  ◌≡◌, ◌≢◌, ◌⊎◌, Bool, true, false, none, some, List, [], Has, keep, HasEq,
}
use civicpatch_tools.Prelude.Dict.{get}
use civicpatch_tools.StateGraph.{
  PipelineRunStatus, State, status, state_eq, next_states, terminal_states,
}
use civicpatch_tools.Engine.{
  PipelineRunContext, Handler, returned, Machine, Call, finally_reported, submitted, Turned, moved,
  stopped, illegal_transition, no_handler, out_of_turns, finish, Ended, returned_context,
  pipeline_run_error, raised_illegal, raised_key_error, unfinished,
}

module _ {Step Data : Type 0} where
  -- The calls of `_finish`.
  abbrev pub is_last_word : Call Step Data → Bool
  is_last_word (finally_reported ctx progress) = true
  is_last_word (submitted ctx) = true
  is_last_word _ = false

  abbrev pub last_words : List (Call Step Data) → List (Call Step Data)
  last_words calls = keep is_last_word calls

module _ {Step Data World : Type 0} ⦃eq : HasEq Step⦄ (machine : Machine Step Data World) where
  -- Where a run may stand when its loop has ended by itself.
  abbrev pub HasStopped : PipelineRunContext Step Data → Type 0
  HasStopped ctx =
      Has ctx.current_state (terminal_states machine.transitions)
      ⊎ (ctx.current_state ≡ status PipelineRunStatus.cancelled)

  -- The context and the state that a state's handler returned.
  abbrev pub CameFrom : State Step → State Step → PipelineRunContext Step Data → Type 0
  CameFrom current requested ctx =
      (before : PipelineRunContext Step Data) × (handler : Handler Step Data World)
      × (answers : World) × (before.current_state ≡ current)
      × (get current machine.handlers ≡ some handler)
      × (handler before answers ≡ returned ctx requested)

  abbrev pub EndsWell : List (Call Step Data) × Ended Step Data → Type 0
  EndsWell (calls, returned_context ctx) =
      HasStopped ctx
      × (ctx.current_state ≢ status PipelineRunStatus.error)
      × (last_words calls ≡ finish machine ctx)
  EndsWell (calls, pipeline_run_error ctx) =
      (ctx.current_state ≡ status PipelineRunStatus.error) × (last_words calls ≡ finish machine ctx)
  EndsWell (calls, raised_illegal current requested) =
      (¬ Has requested (next_states machine.transitions current))
      × ((ctx : PipelineRunContext Step Data) × CameFrom current requested ctx
          × (last_words calls ≡ finish machine ctx))
  EndsWell (calls, raised_key_error current) =
      (get current machine.handlers ≡ none)
      × ((ctx : PipelineRunContext Step Data) × (ctx.current_state ≡ current)
          × (last_words calls ≡ finish machine ctx))
  EndsWell (calls, unfinished ctx) = last_words calls ≡ []

  -- The same of the loop, which leaves the last word to `_finish`.
  LoopsWell : List (Call Step Data) × Turned Step Data → Type 0
  LoopsWell (calls, stopped ctx) = HasStopped ctx × (last_words calls ≡ [])
  LoopsWell (calls, illegal_transition ctx current requested) =
      (¬ Has requested (next_states machine.transitions current))
      × CameFrom current requested ctx
      × (last_words calls ≡ [])
  LoopsWell (calls, no_handler ctx current) =
      (get current machine.handlers ≡ none)
      × (ctx.current_state ≡ current)
      × (last_words calls ≡ [])
  LoopsWell (calls, out_of_turns ctx) = last_words calls ≡ []
  LoopsWell (calls, moved ctx) = last_words calls ≡ []
