-- ===== src/Machine.antt =====
-- models/orchestration_state_machine.py: states, events, transition rules, and the validators of a
-- state machine. A model's validators are one function, `check_...`, from the given field values to
-- the instance; the first validator that raises is its error.
pub mod Valid
pub mod Defaults
use nova_harness.Prelude.{
  Bool, Eq, List, Result, Text, [], any?, codes, err, first_repeat, is_some, map, mem?, nat_eq,
  none, not, ok, refuse, required, some, text_eq, ◌&&◌, ◌++◌, ◌>>=◌, ◌>>◌, ◌∷◌,
}

pub data RunState : Type 0 where
  created assembling_prompt model_pending model_completed tool_pending tool_running : RunState
  verifying awaiting_approval retry_pending succeeded failed cancelled : RunState

pub data RunEvent : Type 0 where
  start_run prompt_ready model_response_received tool_call_requested no_tool_needed : RunEvent
  tool_approved_or_not_required approval_required approval_granted approval_rejected : RunEvent
  tool_completed tool_failed_retryable verification_passed : RunEvent
  verification_failed_retryable verification_failed_terminal retry_allowed cancel_run : RunEvent

unfoldable pub RunState-discrete : Discrete RunState
RunState-discrete = hlevel

unfoldable pub RunEvent-discrete : Discrete RunEvent
RunEvent-discrete = hlevel

instance abbrev pub run_state_eq : Eq RunState
run_state_eq = record { eq? = RunState-discrete }

instance abbrev pub run_event_eq : Eq RunEvent
run_event_eq = record { eq? = RunEvent-discrete }

pub record TransitionGuard : Type 0 where
  pub name : Text
  pub description : Text

pub record TransitionRule : Type 0 where
  pub from_state : RunState
  pub event : RunEvent
  pub to_state : RunState
  pub guards : List TransitionGuard

pub record OrchestrationStateMachine : Type 0 where
  pub machine_id : Text
  pub initial_state : RunState
  pub terminal_states : List RunState
  pub transitions : List TransitionRule

pub data MachineError : Type 0 where
  guard_name_empty machine_id_empty initial_state_terminal terminal_states_repeat : MachineError
  duplicate_transition_pair : RunState × RunEvent → MachineError
  no_outgoing_transitions : MachineError

unfoldable pub check_guard : TransitionGuard → Result MachineError TransitionGuard
check_guard g = do name ← required guard_name_empty g.name; ok (record g { name = name })

abbrev pub key : TransitionRule → RunState × RunEvent
key t = (t.from_state, t.event)

unfoldable pub key-discrete : Discrete (RunState × RunEvent)
unfolding RunState-discrete RunEvent-discrete
key-discrete = hlevel (RunState-discrete, RunEvent-discrete)

instance abbrev pub key_eq : Eq (RunState × RunEvent)
key_eq = record { eq? = key-discrete }

module _ (m : OrchestrationStateMachine) where
  open m use {initial_state, terminal_states, transitions}

  abbrev pub is_terminal_state : RunState → Bool
  is_terminal_state s = mem? s terminal_states

  unfoldable pub states_with_outgoing : List RunState
  states_with_outgoing = map (λ t. t.from_state) transitions

  unfoldable pub used_states : List RunState
  used_states =
      initial_state ∷ (map (λ t. t.from_state) transitions ++ map (λ t. t.to_state) transitions)

  -- A used state that is not terminal and that no transition leaves.
  unfoldable pub is_dead_end : RunState → Bool
  is_dead_end s = not (is_terminal_state s) && not (mem? s states_with_outgoing)

  unfoldable pub initial_state_not_terminal : Result MachineError (Unit {0})
  initial_state_not_terminal = refuse (is_terminal_state initial_state) initial_state_terminal

  unfoldable pub unique_terminal_states : Result MachineError (Unit {0})
  unique_terminal_states = refuse (is_some (first_repeat [] terminal_states)) terminal_states_repeat

  unfoldable pub no_duplicate_transition_pairs : Result MachineError (Unit {0})
  no_duplicate_transition_pairs = elim (first_repeat [] (map key transitions)) [
    | none ↦ ok tt
    | some k ↦ err (duplicate_transition_pair k)
  ]

  unfoldable pub non_terminal_states_have_outgoing : Result MachineError (Unit {0})
  non_terminal_states_have_outgoing = refuse (any? is_dead_end used_states) no_outgoing_transitions

unfoldable pub check_machine :
    OrchestrationStateMachine → Result MachineError OrchestrationStateMachine
unfolding initial_state_not_terminal unique_terminal_states no_duplicate_transition_pairs
    non_terminal_states_have_outgoing
check_machine m = do
  machine_id ← required machine_id_empty m.machine_id
  initial_state_not_terminal m
  unique_terminal_states m
  no_duplicate_transition_pairs m
  non_terminal_states_have_outgoing m
  ok (record m { machine_id = machine_id })

-- `RunState.value`
unfoldable pub run_state_value : RunState → Text
run_state_value created = codes "created"
run_state_value assembling_prompt = codes "assembling_prompt"
run_state_value model_pending = codes "model_pending"
run_state_value model_completed = codes "model_completed"
run_state_value tool_pending = codes "tool_pending"
run_state_value tool_running = codes "tool_running"
run_state_value verifying = codes "verifying"
run_state_value awaiting_approval = codes "awaiting_approval"
run_state_value retry_pending = codes "retry_pending"
run_state_value succeeded = codes "succeeded"
run_state_value failed = codes "failed"
run_state_value cancelled = codes "cancelled"

-- `RunEvent.value`
unfoldable pub run_event_value : RunEvent → Text
run_event_value start_run = codes "start_run"
run_event_value prompt_ready = codes "prompt_ready"
run_event_value model_response_received = codes "model_response_received"
run_event_value tool_call_requested = codes "tool_call_requested"
run_event_value no_tool_needed = codes "no_tool_needed"
run_event_value tool_approved_or_not_required = codes "tool_approved_or_not_required"
run_event_value approval_required = codes "approval_required"
run_event_value approval_granted = codes "approval_granted"
run_event_value approval_rejected = codes "approval_rejected"
run_event_value tool_completed = codes "tool_completed"
run_event_value tool_failed_retryable = codes "tool_failed_retryable"
run_event_value verification_passed = codes "verification_passed"
run_event_value verification_failed_retryable = codes "verification_failed_retryable"
run_event_value verification_failed_terminal = codes "verification_failed_terminal"
run_event_value retry_allowed = codes "retry_allowed"
run_event_value cancel_run = codes "cancel_run"
