-- ===== src/Collector/Handlers/Turned.antt =====
-- One turn of a people collector's run.
use civicpatch_tools.Prelude.{
  ℕ, String, ◌≡◌, inl, inr, refl, Bool, true, false, ◌||◌, none, some, List, [], ◌∷◌, All,
  All-of_Has, Has, all_of, all_of-Has, mem, mem_iff, Bool-cases, Option-cases, HasEq,
}
use civicpatch_tools.Prelude.Dict.{Dict, get, has_key, Has-keys_of_get}
use civicpatch_tools.StateGraph.{
  PipelineRunStatus, status, step, state_eq, state_eqb, get_or_empty, is_empty, next_states,
  terminal_states,
}
use civicpatch_tools.Engine.{
  Handled, returned, raised, Handler, Machine, Turn, Turned, moved, illegal_transition, no_handler,
  says_cancelled, after_handler, call_handler, run_turn,
}
use civicpatch_tools.Engine.Walk.{HandledStatesGoOn}
use civicpatch_tools.Collector.Graph.{
  PeopleCollectorStep, PeopleCollectorState, step_eq, step_eqb, people_collector_transitions,
}
use civicpatch_tools.Collector.Progress.{PipelineRunLimits}
use civicpatch_tools.Collector.Handlers.{PeopleCollectorData, World}
use civicpatch_tools.Collector.Handlers.Steps.{Context}
use civicpatch_tools.Collector.Handlers.Runner.{transition_map, people_collector}
use civicpatch_tools.Collector.Handlers.Legal.{is_allowed, IsAllowed}
use civicpatch_tools.Collector.Handlers.Whole.{handlers-IsAllowed}

has_key-none :
    {K V : Type 0} ⦃e : HasEq K⦄ (k : K) (d : Dict K V) → get k d ≡ none → has_key k d ≡ false
has_key-none k d e = rw (has_key, e) refl

neither : {a b : Bool} → a ≡ false → b ≡ false → (a || b) ≡ true → ⊥
neither p q h = cc (rw (p, q) at h)

-- The states that have a handler or that end a run.
placed : List PeopleCollectorState
placed =
    status PipelineRunStatus.init
    ∷ step PeopleCollectorStep.research_municipality
    ∷ step PeopleCollectorStep.scrape_page
    ∷ step PeopleCollectorStep.preprocess_page_content
    ∷ step PeopleCollectorStep.process_page_content
    ∷ step PeopleCollectorStep.cleanup
    ∷ step PeopleCollectorStep.review_output
    ∷ step PeopleCollectorStep.save_output
    ∷ step PeopleCollectorStep.send_success
    ∷ status PipelineRunStatus.send_error
    ∷ step PeopleCollectorStep.find_jurisdiction_url
    ∷ status PipelineRunStatus.success
    ∷ status PipelineRunStatus.error
    ∷ status PipelineRunStatus.cancelled
    ∷ status PipelineRunStatus.resolved
    ∷ []

unfoldable pub is_placed : PeopleCollectorState → Bool
unfolding placed step_eqb state_eqb
is_placed s = mem s placed

stays_placed : PeopleCollectorState → Bool
unfolding is_placed next_states step_eqb state_eqb
stays_placed s = all_of is_placed (next_states people_collector_transitions s)

-- A turn that leaves the run in its place, with nothing raised.
abbrev pub IsOrderly : {Data : Type 0} → Turned PeopleCollectorStep Data → Type 0
IsOrderly (moved ctx) = is_placed ctx.current_state ≡ true
IsOrderly (illegal_transition ctx current requested) = ⊥
IsOrderly (no_handler ctx current) = ⊥
IsOrderly _ = Unit

module _ {Rec Pre : Type 0} (limits : PipelineRunLimits)
    (canonical_url format_url : String → String) (same_domain : String → String → Bool)
    (percentage : PeopleCollectorData Rec Pre → ℕ → ℕ) where
  abbrev pub machine : Machine PeopleCollectorStep (PeopleCollectorData Rec Pre) (World Rec Pre)
  machine = people_collector limits canonical_url format_url same_domain percentage

  IsConnected :
      PeopleCollectorState
        × Handler PeopleCollectorStep (PeopleCollectorData Rec Pre) (World Rec Pre)
      → Type 0
  IsConnected (s, handler) =
      (is_empty (get_or_empty (get s people_collector_transitions)) ≡ false)
      × (stays_placed s ≡ true)

  transition_map-IsConnected :
      All IsConnected (transition_map limits canonical_url format_url same_domain percentage)
  unfolding IsConnected stays_placed get
  transition_map-IsConnected = (
    (refl, refl),
    (
      (refl, refl),
      (
        (refl, refl),
        (
          (refl, refl),
          (
            (refl, refl),
            (
              (refl, refl),
              ((refl, refl), ((refl, refl), ((refl, refl), ((refl, refl), ((refl, refl), tt))))),
            ),
          ),
        ),
      ),
    ),
  )

  -- Every state that has a handler has somewhere to go.
  pub people_collector-HandledStatesGoOn :
      HandledStatesGoOn (people_collector limits canonical_url format_url same_domain percentage)
  unfolding IsConnected
  people_collector-HandledStatesGoOn s handler found =
      (All-of_Has IsConnected
        (transition_map limits canonical_url format_url same_domain percentage)
        transition_map-IsConnected
        (Has-keys_of_get s handler
          (transition_map limits canonical_url format_url same_domain percentage) found)).0

  -- A state that is placed has a handler or ends the run.
  IsServed : PeopleCollectorState → Type 0
  IsServed s =
      (has_key s (transition_map limits canonical_url format_url same_domain percentage)
        || mem s (terminal_states people_collector_transitions))
      ≡ true

  placed-IsServed : All IsServed placed
  unfolding IsServed placed get terminal_states step_eqb state_eqb
  placed-IsServed = (
    refl,
    (
      refl,
      (
        refl,
        (
          refl,
          (
            refl,
            (refl, (refl, (refl, (refl, (refl, (refl, (refl, (refl, (refl, (refl, tt)))))))))),
          ),
        ),
      ),
    ),
  )

  next-is_placed :
      (s next : PeopleCollectorState)
      (handler : Handler PeopleCollectorStep (PeopleCollectorData Rec Pre) (World Rec Pre))
      → get s (transition_map limits canonical_url format_url same_domain percentage) ≡ some handler
      → Has next (next_states people_collector_transitions s)
      → is_placed next ≡ true
  unfolding IsConnected stays_placed
  next-is_placed s next handler found m =
      all_of-Has is_placed (next_states people_collector_transitions s) next
        (All-of_Has IsConnected
          (transition_map limits canonical_url format_url same_domain percentage)
          transition_map-IsConnected
          (Has-keys_of_get s handler
            (transition_map limits canonical_url format_url same_domain percentage) found)).1
        m

  answered-IsOrderly :
      (ctx : Context Rec Pre) (now : ℕ)
      (handler : Handler PeopleCollectorStep (PeopleCollectorData Rec Pre) (World Rec Pre))
      → get ctx.current_state
          (transition_map limits canonical_url format_url same_domain percentage)
        ≡ some handler
      → (result : Handled PeopleCollectorStep (PeopleCollectorData Rec Pre))
      → IsAllowed ctx.current_state result
      → IsOrderly (after_handler machine ctx now result)
  unfolding after_handler is_allowed is_placed placed
  answered-IsOrderly ctx now handler found (raised text) ok = refl
  answered-IsOrderly ctx now handler found (returned next s) ok =
      rw ok (next-is_placed ctx.current_state s handler found ((mem_iff s _).0 ok))

  pub run_turn-IsOrderly :
      (ctx : Context Rec Pre) (turn : Turn PeopleCollectorStep (World Rec Pre))
      → is_placed ctx.current_state ≡ true
      → mem ctx.current_state (terminal_states people_collector_transitions) ≡ false
      → IsOrderly (run_turn machine ctx turn).1
  unfolding run_turn call_handler IsServed is_placed
  run_turn-IsOrderly ctx turn here goes = elim (Bool-cases (says_cancelled machine turn.polled)) [
    | inl t ↦ rw t tt
    | inr f ↦
        elim (Option-cases (
          get ctx.current_state
            (transition_map limits canonical_url format_url same_domain percentage))) [
              | inl e ↦ absurd (
                  neither
                    (has_key-none ctx.current_state
                      (transition_map limits canonical_url format_url same_domain percentage) e)
                    goes
                    (All-of_Has IsServed placed placed-IsServed
                      ((mem_iff ctx.current_state placed).0 here)))
              | inr (handler, e) ↦
                  rw (f, e)
                    (answered-IsOrderly ctx turn.stepped_at handler e (handler ctx turn.answers) (
                      handlers-IsAllowed limits canonical_url format_url same_domain percentage
                        ctx.current_state handler e ctx turn.answers))
            ]
  ]
