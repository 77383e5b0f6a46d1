-- ===== src/Examples/Steps.antt =====
-- A step that has succeeded.
use nova_harness.Prelude.{
  [], any?, codes, false, has_text, mem?, nat_eq, none, ok, pos, refl, required, run_texts, some,
  strip, text_eq, true, ◌↔◌, ◌∷◌, ◌≡◌,
}
use nova_harness.Step.Checks.{
  check_step_action_record, check_step_intent, check_step_selection_context,
  check_step_turn_envelope, check_step_verification_record,
}
use nova_harness.Step.Lifecycle.{
  check_step_lifecycle_record, completed_success_needs_verification,
  delegation_request_needs_allowed, failure_outcome_needs_stop_reason, has_delta, has_updates,
  is_delegation, is_unpassed, no_progress_needs_next_step_hint,
  state_delta_requires_artifact_updates, terminal_status_requires_ended_at,
}
use nova_harness.Step.Rules.{IsLawful, check_step_lifecycle_record_iff}
use nova_harness.Step.Types.{
  StepActionRecord, StepArtifactUpdateRecord, StepIntent, StepLifecycleRecord, StepOutcome-discrete,
  StepSelectionContext, StepStateDelta, StepTurnEnvelope, StepTurnStatus-discrete,
  StepVerificationRecord, close, completed, loop_iteration, step_outcome_eq, step_phase_eq,
  step_turn_status_eq, success,
}

abbrev example_step_selection_context : StepSelectionContext
example_step_selection_context = record {
  step_id = codes "step-id";
  loop_id = codes "loop-id";
  run_id = none;
  iteration_id = none;
  selected_task_id = none;
  selected_feature_id = none;
  selection_reason = codes "selection-reason";
  priority = codes "priority";
  blocking_dependencies = [];
  input_refs = [];
}

abbrev example_step_intent : StepIntent
example_step_intent = record {
  intent_id = codes "intent-id";
  objective = codes "objective";
  expected_output = codes "expected-output";
  acceptance_criteria = codes "tests pass" ∷ [];
  verification_mode = codes "verification-mode";
  allowed_actions = [];
  forbidden_actions = [];
  budget_hint = none;
  delegation_allowed = false;
}

abbrev example_step_action_record : StepActionRecord
example_step_action_record = record {
  action_id = codes "action-id";
  phase = close;
  action_type = codes "action-type";
  started_at = codes "2024-01-01";
  ended_at = none;
  status = codes "status";
  related_tool_call_id = none;
  related_model_call_id = none;
  artifact_refs = [];
  summary = codes "summary";
}

abbrev example_step_verification_record : StepVerificationRecord
example_step_verification_record = record {
  verification_id = codes "verification-id";
  verification_mode = codes "verification-mode";
  evidence_refs = [];
  checks_performed = [];
  passed = true;
  confidence = pos 90;
  failure_summary = codes "failure-summary";
  requires_retry = false;
  requires_escalation = false;
}

abbrev example_step_state_delta : StepStateDelta
example_step_state_delta = record {
  updated_task_status = none;
  updated_feature_status = none;
  memory_changes = [];
  state_changes = [];
  new_blockers = [];
  resolved_blockers = [];
  new_lessons = [];
  next_action = codes "next-action";
}

abbrev example_step_artifact_update_record : StepArtifactUpdateRecord
example_step_artifact_update_record = record {
  updated_loop_execution = false;
  updated_loop_memory = false;
  updated_todo = false;
  updated_features = false;
  updated_lessons = false;
  updated_state = true;
  updated_prompts = false;
  updated_agent_rules = false;
  updated_git_policy = false;
  update_summary = codes "update-summary";
}

abbrev example_step_lifecycle_record : StepLifecycleRecord
example_step_lifecycle_record = record {
  step_id = codes "step-id";
  status = completed;
  outcome = some success;
  current_phase = close;
  trigger_type = loop_iteration;
  selection_context = example_step_selection_context;
  intent = example_step_intent;
  actions = example_step_action_record ∷ [];
  verification = some example_step_verification_record;
  state_delta = example_step_state_delta;
  artifact_updates = example_step_artifact_update_record;
  started_at = codes "2024-01-01";
  ended_at = some (codes "2024-01-02");
  stop_reason = none;
  next_step_hint = codes "next-step-hint";
}

abbrev example_step_turn_envelope : StepTurnEnvelope
example_step_turn_envelope = record {
  envelope_id = codes "envelope-id";
  loop_id = codes "loop-id";
  run_id = none;
  step = example_step_lifecycle_record;
}

unfoldable step_env : Unit {0}
unfolding check_step_selection_context check_step_intent check_step_action_record
    check_step_verification_record check_step_lifecycle_record check_step_turn_envelope
    terminal_status_requires_ended_at completed_success_needs_verification
    failure_outcome_needs_stop_reason no_progress_needs_next_step_hint
    state_delta_requires_artifact_updates delegation_request_needs_allowed is_unpassed has_delta
    has_updates is_delegation any? required mem? has_text run_texts StepTurnStatus-discrete
    StepOutcome-discrete
step_env = tt

step_parts_accepted :
    (check_step_selection_context example_step_selection_context
      ≡ ok example_step_selection_context)
    × (check_step_intent example_step_intent ≡ ok example_step_intent)
    × (check_step_action_record example_step_action_record ≡ ok example_step_action_record)
    × (check_step_verification_record example_step_verification_record
        ≡ ok example_step_verification_record)
    × (check_step_lifecycle_record example_step_lifecycle_record ≡ ok example_step_lifecycle_record)
    × (check_step_turn_envelope example_step_turn_envelope ≡ ok example_step_turn_envelope)
unfolding step_env
step_parts_accepted = (refl, refl, refl, refl, refl, refl)

check_step_lifecycle_record_iff_example :
    (check_step_lifecycle_record example_step_lifecycle_record ≡ ok example_step_lifecycle_record)
    ↔ (IsLawful example_step_lifecycle_record
        × (example_step_lifecycle_record
            ≡ record example_step_lifecycle_record { step_id = strip (codes "step-id") }))
check_step_lifecycle_record_iff_example =
    check_step_lifecycle_record_iff example_step_lifecycle_record example_step_lifecycle_record
