-- ===== src/Machine/Defaults.antt =====
-- `default_transitions` and `default_machine` of models/orchestration_state_machine.py.
use nova_harness.Prelude.{
  All, All-Memᴰ, List, Memᴰ, Option, Text, [], any?, arith, codes, false, first_repeat, is_blank,
  mem?, nat_eq, none, ok, required_solid, some, strip, text_eq, ◌∷◌, ◌≡◌,
}
use nova_harness.Machine.{
  OrchestrationStateMachine, RunEvent, RunState, RunState-discrete, TransitionGuard, TransitionRule,
  approval_granted, approval_rejected, approval_required, assembling_prompt, awaiting_approval,
  cancel_run, cancelled, check_machine, created, failed, is_dead_end, key-discrete, key_eq,
  machine_id_empty, model_completed, model_pending, model_response_received, no_tool_needed,
  prompt_ready, retry_allowed, retry_pending, run_event_eq, run_state_eq, start_run,
  states_with_outgoing, succeeded, tool_approved_or_not_required, tool_call_requested,
  tool_completed, tool_failed_retryable, tool_pending, tool_running, used_states,
  verification_failed_retryable, verification_failed_terminal, verification_passed, verifying,
}

abbrev retry_budget : List TransitionGuard
retry_budget =
    record {
      name = codes "retry_budget_available";
      description = codes "Retry count has not exceeded max_retries";
    }
    ∷ []

abbrev approval_gate : List TransitionGuard
approval_gate =
    record {
      name = codes "approval_granted_if_required";
      description = codes "Approval has been granted by the required approver";
    }
    ∷ []

abbrev rule : RunState → RunEvent → RunState → List TransitionGuard → TransitionRule
rule from_state event to_state guards = record {
  from_state = from_state;
  event = event;
  to_state = to_state;
  guards = guards;
}

unfoldable pub default_transitions : List TransitionRule
default_transitions =
    rule created start_run assembling_prompt []
    ∷ rule assembling_prompt prompt_ready model_pending []
    ∷ rule model_pending model_response_received model_completed []
    ∷ rule model_completed tool_call_requested tool_pending []
    ∷ rule model_completed no_tool_needed verifying []
    ∷ rule tool_pending tool_approved_or_not_required tool_running []
    ∷ rule tool_pending approval_required awaiting_approval []
    ∷ rule awaiting_approval approval_granted tool_running approval_gate
    ∷ rule awaiting_approval approval_rejected failed []
    ∷ rule tool_running tool_completed verifying []
    ∷ rule tool_running tool_failed_retryable retry_pending []
    ∷ rule verifying verification_passed succeeded []
    ∷ rule verifying verification_failed_retryable retry_pending []
    ∷ rule verifying verification_failed_terminal failed []
    ∷ rule retry_pending retry_allowed assembling_prompt retry_budget
    ∷ rule created cancel_run cancelled []
    ∷ rule assembling_prompt cancel_run cancelled []
    ∷ rule model_pending cancel_run cancelled []
    ∷ rule model_completed cancel_run cancelled []
    ∷ rule tool_pending cancel_run cancelled []
    ∷ rule tool_running cancel_run cancelled []
    ∷ rule verifying cancel_run cancelled []
    ∷ rule awaiting_approval cancel_run cancelled []
    ∷ rule retry_pending cancel_run cancelled []
    ∷ []

unfoldable pub default_machine : Text → OrchestrationStateMachine
unfolding default_transitions
default_machine machine_id = record {
  machine_id = machine_id;
  initial_state = created;
  terminal_states = succeeded ∷ failed ∷ cancelled ∷ [];
  transitions = default_transitions;
}

-- The default machine, with any id that is not blank, is accepted by its own validators.
pub default_machine-accepted :
    (machine_id : Text)
    → is_blank machine_id ≡ false
    → check_machine (default_machine machine_id) ≡ ok (default_machine (strip machine_id))
unfolding check_machine default_machine mem? first_repeat any? used_states states_with_outgoing
    is_dead_end RunState-discrete key-discrete
default_machine-accepted machine_id h = rw (required_solid machine_id_empty machine_id h)

-- The default transitions as a table, state by state.
abbrev pub next : RunState → RunEvent → Option RunState
next created start_run = some assembling_prompt
next assembling_prompt prompt_ready = some model_pending
next model_pending model_response_received = some model_completed
next model_completed tool_call_requested = some tool_pending
next model_completed no_tool_needed = some verifying
next tool_pending tool_approved_or_not_required = some tool_running
next tool_pending approval_required = some awaiting_approval
next awaiting_approval approval_granted = some tool_running
next awaiting_approval approval_rejected = some failed
next tool_running tool_completed = some verifying
next tool_running tool_failed_retryable = some retry_pending
next verifying verification_passed = some succeeded
next verifying verification_failed_retryable = some retry_pending
next verifying verification_failed_terminal = some failed
next retry_pending retry_allowed = some assembling_prompt
next created cancel_run = some cancelled
next assembling_prompt cancel_run = some cancelled
next model_pending cancel_run = some cancelled
next model_completed cancel_run = some cancelled
next tool_pending cancel_run = some cancelled
next tool_running cancel_run = some cancelled
next verifying cancel_run = some cancelled
next awaiting_approval cancel_run = some cancelled
next retry_pending cancel_run = some cancelled
next _ _ = none

abbrev TableRow : TransitionRule → Type 0
TableRow t = next t.from_state t.event ≡ some t.to_state

default_transitions-table : All TableRow default_transitions
unfolding default_transitions
default_transitions-table = ground arith

pub next_of_listed :
    {t : TransitionRule} (machine_id : Text)
    → Memᴰ t (default_machine machine_id).transitions
    → next t.from_state t.event ≡ some t.to_state
unfolding default_machine
next_of_listed machine_id m = All-Memᴰ TableRow default_transitions default_transitions-table m
