-- ===== src/Engine/Walk.antt =====
-- The states of a run against its pipeline's graph.
use civicpatch_tools.Prelude.{
  ℕ, ◌≡◌, inl, inr, refl, false, Option, none, some, List, [], ◌∷◌, ◌++◌, Has, Has-append, mem,
  Bool-cases, HasEq, mem_iff,
}
use civicpatch_tools.Prelude.Dict.{get}
use civicpatch_tools.StateGraph.{
  PipelineRunStatus, State, status, state_eq, get_or_empty, is_empty, with_engine_states,
  next_states, terminal_states,
}
use civicpatch_tools.Engine.{
  PipelineRunContext, Handled, returned, raised, Handler, Machine, Turn, Call, fetched, reported,
  handled, persisted, finally_reported, submitted, Turned, moved, stopped, illegal_transition,
  no_handler, out_of_turns, says_cancelled, after_handler, persists, call_handler, run_turn, go_on,
  run_loop, finish, end_run, run_pipeline,
}
use mathlib.Core.List.{append-nil, append_assoc}

module _ {Step Data World : Type 0} ⦃eq : HasEq Step⦄ (machine : Machine Step Data World) where
  -- Calls that keep to the graph from `s` on: what is reported and handled is where the run stands,
  -- and what is persisted next is a state that the graph allows from there.
  abbrev pub Walks : State Step → List (Call Step Data) → Type 0
  Walks s [] = Unit
  Walks s (fetched ∷ calls) = Walks s calls
  Walks s (reported ctx ∷ calls) = (ctx.current_state ≡ s) × Walks s calls
  Walks s (handled state ∷ calls) = (state ≡ s) × Walks s calls
  Walks s (persisted ctx ∷ calls) =
      Has ctx.current_state (next_states machine.transitions s) × Walks ctx.current_state calls
  Walks s (finally_reported ctx progress ∷ calls) = Walks s calls
  Walks s (submitted ctx ∷ calls) = Walks s calls

  -- Every state that has a handler has somewhere to go.
  abbrev pub HandledStatesGoOn : Type 0
  HandledStatesGoOn =
      (s : State Step) (h : Handler Step Data World)
      → get s machine.handlers ≡ some h
      → is_empty (get_or_empty (get s machine.transitions)) ≡ false

  Has-send_error :
      (allowed : List (State Step))
      → is_empty allowed ≡ false
      → Has (status PipelineRunStatus.send_error) (with_engine_states allowed)
  unfolding with_engine_states
  Has-send_error [] e = absurd (cc)
  Has-send_error (s ∷ allowed) e = (Has-append _ (s ∷ allowed) _).1 (inr (inl refl))

  -- What a turn leaves the rest of the calls to do.
  Continues : Turned Step Data → List (Call Step Data) → Type 0
  Continues (moved ctx) rest = Walks ctx.current_state rest
  Continues _ rest = (s : State Step) → Walks s rest

  Leads : State Step → List (Call Step Data) × Turned Step Data → Type 0
  Leads s done = (rest : List (Call Step Data)) → Continues done.1 rest → Walks s (done.0 ++ rest)

  after_handler-Leads :
      HandledStatesGoOn
      → (ctx : PipelineRunContext Step Data) (now : ℕ) (h : Handler Step Data World)
      → get ctx.current_state machine.handlers ≡ some h
      → (result : Handled Step Data)
      → let next = after_handler machine ctx now result in
        Leads ctx.current_state (handled ctx.current_state ∷ persists machine next, next)
  unfolding Leads Continues after_handler persists next_states
  after_handler-Leads go ctx now h e (raised text) rest on =
      (refl, (Has-send_error _ (go ctx.current_state h e), on))
  after_handler-Leads go ctx now h e (returned next s) rest on =
      elim (Bool-cases (mem s (next_states machine.transitions ctx.current_state))) [
        | inl t ↦ rw t (refl, ((mem_iff s _).0 t, rw t at on))
        | inr f ↦ rw f (refl, (rw f at on) ctx.current_state)
      ]

  call_handler-Leads :
      HandledStatesGoOn
      → (ctx : PipelineRunContext Step Data) (turn : Turn Step World)
        (found : Option (Handler Step Data World))
      → get ctx.current_state machine.handlers ≡ found
      → Leads ctx.current_state (call_handler machine ctx turn found)
  unfolding Leads Continues call_handler
  call_handler-Leads go ctx turn none e = λ rest on. on ctx.current_state
  call_handler-Leads go ctx turn (some h) e =
      after_handler-Leads go ctx turn.stepped_at h e (h ctx turn.answers)

  run_turn-Leads :
      HandledStatesGoOn
      → (ctx : PipelineRunContext Step Data) (turn : Turn Step World)
      → Leads ctx.current_state (run_turn machine ctx turn)
  unfolding Leads Continues run_turn
  run_turn-Leads go ctx turn rest on = elim (Bool-cases (says_cancelled machine turn.polled)) [
    | inl t ↦ rw t ((rw t at on) ctx.current_state)
    | inr f ↦ rw f (refl, call_handler-Leads go ctx turn _ refl rest (rw f at on))
  ]

  go_on-Leads :
      (s : State Step)
      (next : PipelineRunContext Step Data → List (Call Step Data) × Turned Step Data)
      → ((ctx : PipelineRunContext Step Data) → Leads ctx.current_state (next ctx))
      → (done : List (Call Step Data) × Turned Step Data) → Leads s done
      → Leads s (go_on machine next done)
  unfolding Leads Continues go_on
  go_on-Leads s next after (calls, moved ctx) leads =
      λ rest on. rw append_assoc (leads ((next ctx).0 ++ rest) (after ctx rest on))
  go_on-Leads s next after (calls, stopped ctx) leads = leads
  go_on-Leads s next after (calls, illegal_transition ctx a b) leads = leads
  go_on-Leads s next after (calls, no_handler ctx a) leads = leads
  go_on-Leads s next after (calls, out_of_turns ctx) leads = leads

  run_loop-Leads :
      HandledStatesGoOn
      → (ctx : PipelineRunContext Step Data) (turns : List (Turn Step World))
      → Leads ctx.current_state (run_loop machine ctx turns)
  unfolding run_loop Leads Continues
  run_loop-Leads go ctx [] =
      elim (Bool-cases (mem ctx.current_state (terminal_states machine.transitions))) [
        | inl t ↦ rw t (λ rest on. on ctx.current_state)
        | inr f ↦ rw f (λ rest on. on ctx.current_state)
      ]
  run_loop-Leads go ctx (turn ∷ turns) =
      elim (Bool-cases (mem ctx.current_state (terminal_states machine.transitions))) [
        | inl t ↦ rw t (λ rest on. on ctx.current_state)
        | inr f ↦ rw f (
            go_on-Leads ctx.current_state (λ next. run_loop machine next turns)
              (λ next. run_loop-Leads go next turns) (run_turn machine ctx turn)
              (run_turn-Leads go ctx turn))
      ]

  finish-Walks :
      (s : State Step) (ctx : PipelineRunContext Step Data) → Walks s (finish machine ctx)
  unfolding finish
  finish-Walks s ctx = elim (Bool-cases machine.submits_context) [
    | inl t ↦ rw t tt
    | inr f ↦ rw f tt
  ]

  end_run-Walks :
      (s : State Step) (done : List (Call Step Data) × Turned Step Data)
      → Leads s done
      → Walks s (end_run machine done).0
  unfolding end_run Leads Continues
  end_run-Walks s (calls, stopped ctx) leads = leads (finish machine ctx) (λ u. finish-Walks u ctx)
  end_run-Walks s (calls, illegal_transition ctx a b) leads =
      leads (finish machine ctx) (λ u. finish-Walks u ctx)
  end_run-Walks s (calls, no_handler ctx a) leads =
      leads (finish machine ctx) (λ u. finish-Walks u ctx)
  end_run-Walks s (calls, out_of_turns ctx) leads = rw append-nil at (leads [] (λ u. tt))
  end_run-Walks s (calls, moved ctx) leads = rw append-nil at (leads [] tt)

  -- If every state that has a handler has somewhere to go, a run keeps to its graph from the state
  -- it starts in, whatever its handlers and cp.org do: it reports and handles the state it is in,
  -- and goes only to a state that the graph allows from there, a handler that raised included.
  pub run_pipeline-Walks :
      HandledStatesGoOn
      → (ctx : PipelineRunContext Step Data) (now : ℕ) (turns : List (Turn Step World))
      → Walks ctx.current_state (run_pipeline machine ctx now turns).0
  unfolding run_pipeline
  run_pipeline-Walks go ctx now turns =
      end_run-Walks ctx.current_state _
        (run_loop-Leads go (record ctx { created_at = now; updated_at = now }) turns)
