-- ===== src/StateGraph.antt =====
-- The states of a pipeline's run, and the graph of them: PipelineRunStatus of
-- shared/src/shared/utils/statuses.py, and `terminal_states` and `next_states` of
-- pipelines/src/runners/engine.py.
use civicpatch_tools.Prelude.{
  ℕ, ◌≡◌, ◌↔◌, ap, Bool, true, false, Option, none, some, List, [], ◌∷◌, ◌++◌, ◌==◌, arith,
  if◌then◌else◌, HasEq, nat_eqb, string_eq, eq_of_eqb,
}
use civicpatch_tools.Prelude.Dict.{Dict, get}

-- shared/src/shared/utils/statuses.py
pub data PipelineRunStatus : Type 0 where
  pending running init send_error success error resolved cancelled : PipelineRunStatus

run_status_place : PipelineRunStatus → ℕ
run_status_place PipelineRunStatus.pending = 0
run_status_place PipelineRunStatus.running = 1
run_status_place PipelineRunStatus.init = 2
run_status_place PipelineRunStatus.send_error = 3
run_status_place PipelineRunStatus.success = 4
run_status_place PipelineRunStatus.error = 5
run_status_place PipelineRunStatus.resolved = 6
run_status_place PipelineRunStatus.cancelled = 7

unfoldable pub run_status_eqb : PipelineRunStatus → PipelineRunStatus → Bool
unfolding run_status_place
run_status_eqb a b = nat_eqb (run_status_place a) (run_status_place b)

pub run_status_eqb_iff : (a b : PipelineRunStatus) → (run_status_eqb a b ≡ true) ↔ (a ≡ b)
unfolding run_status_eqb
run_status_eqb_iff a b = ground arith

instance abbrev pub run_status_eq : HasEq PipelineRunStatus
run_status_eq = record { eqb = run_status_eqb; eqb_iff = run_status_eqb_iff }

-- A state is a pipeline's own step or a shared lifecycle state.
pub data State (Step : Type 0) : Type 0 where
  status : PipelineRunStatus → State Step
  step : Step → State Step

module _ {Step : Type 0} ⦃eq : HasEq Step⦄ where
  unfoldable pub state_eqb : State Step → State Step → Bool
  unfolding run_status_eqb
  state_eqb (status a) (status b) = a == b
  state_eqb (step a) (step b) = a == b
  state_eqb _ _ = false

  pub state_eqb_iff : (a b : State Step) → (state_eqb a b ≡ true) ↔ (a ≡ b)
  unfolding state_eqb
  state_eqb_iff (status a) (status b) =
      ((λ h. ap status (eq_of_eqb a b h)), λ e. (run_status_eqb_iff a b).1 (cc))
  state_eqb_iff (step a) (step b) = ((λ h. ap step (eq_of_eqb a b h)), λ e. (eq.eqb_iff a b).1 (cc))
  state_eqb_iff (status a) (step b) = (λ h. absurd (cc), λ e. absurd (cc))
  state_eqb_iff (step a) (status b) = (λ h. absurd (cc), λ e. absurd (cc))

  instance abbrev pub state_eq : HasEq (State Step)
  state_eq = record { eqb = state_eqb; eqb_iff = state_eqb_iff }

abbrev pub Transitions : Type 0 → Type 0
Transitions Step = Dict (State Step) (List (State Step))

abbrev pub is_empty : {A : Type 0} → List A → Bool
is_empty [] = true
is_empty (x ∷ xs) = false

-- `transitions.get(current, frozenset())`
abbrev pub get_or_empty : {A : Type 0} → Option (List A) → List A
get_or_empty none = []
get_or_empty (some xs) = xs

-- `allowed | {SEND_ERROR, CANCELLED}`, unless there is nothing to leave for.
unfoldable pub with_engine_states : {Step : Type 0} → List (State Step) → List (State Step)
with_engine_states [] = []
with_engine_states (s ∷ allowed) =
    (s ∷ allowed) ++ status PipelineRunStatus.send_error ∷ status PipelineRunStatus.cancelled ∷ []

module _ {Step : Type 0} where
  unfoldable pub terminal_states : Transitions Step → List (State Step)
  terminal_states [] = []
  terminal_states ((s, allowed) ∷ transitions) =
      let rest = terminal_states transitions in if is_empty allowed then s ∷ rest else rest

  unfoldable pub next_states : ⦃eq : HasEq Step⦄ → Transitions Step → State Step → List (State Step)
  unfolding with_engine_states state_eqb get
  next_states transitions current = with_engine_states (get_or_empty (get current transitions))
