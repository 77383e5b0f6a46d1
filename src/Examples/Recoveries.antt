-- ===== src/Examples/Recoveries.antt =====
-- A failure whose compensation failed too.
use nova_harness.Prelude.{
  [], any?, codes, false, has_text, int_eq, is_unique, mem?, nat_eq, none, ok, pos, refl, required,
  run_texts, set_of, some, strip, text_eq, true, ℤ-discrete, ◌↔◌, ◌∷◌, ◌≡◌,
}
use nova_harness.Recovery.Checks.{
  check_compensation_action_record, check_compensation_plan_record, check_failure_record,
  check_recovery_execution_record, check_recovery_plan_record, check_retry_attempt_record,
  check_retry_policy_record,
}
use nova_harness.Recovery.Envelope.{
  check_recovery_envelope, compensation_failures_remain_visible, has_failed, hides_failure,
  is_no_retry, is_safe, none_strategy_no_attempts, unknown_state_blocks_safe_dispositions,
}
use nova_harness.Recovery.Rules.{IsVisible, check_recovery_envelope_iff}
use nova_harness.Recovery.Types.{
  CompensationActionRecord, CompensationPlanRecord, CompensationStatus-discrete,
  FailureDisposition-discrete, FailureRecord, RecoveryExecutionRecord, RecoveryMode-discrete,
  RecoveryPlanRecord, RetryAttemptRecord, RetryPolicyRecord, RetryRecoveryCompensationEnvelope,
  RetryStrategy-discrete, aborted, compensation_status_eq, failed, failure_disposition_eq, fixed,
  recovery_mode_eq, resume_from_checkpoint, retry_strategy_eq, timeout,
}
use native.Mathlib.Decide.{ℕ_discrete}

abbrev example_failure_record : FailureRecord
example_failure_record = record {
  failure_id = codes "failure-id";
  scope_ref = codes "scope-ref";
  scope_type = none;
  failure_category = timeout;
  error_code = none;
  failure_summary = codes "failure-summary";
  retryable = false;
  side_effects_present = false;
  unknown_state = true;
  evidence_refs = [];
  occurred_at = codes "2024-01-01";
}

abbrev example_retry_policy_record : RetryPolicyRecord
example_retry_policy_record = record {
  retry_policy_id = codes "retry-policy-id";
  failure_category = none;
  retry_strategy = fixed;
  max_attempts = pos 1;
  base_delay_ms = pos 1;
  backoff_scale_factor = pos 200;
  max_delay_ms = none;
  jitter_enabled = false;
  stop_conditions = [];
}

abbrev example_retry_attempt_record : RetryAttemptRecord
example_retry_attempt_record = record {
  retry_attempt_id = codes "retry-attempt-id";
  failure_id = codes "failure-id";
  attempt_number = pos 1;
  scheduled_delay_ms = pos 1;
  started_at = none;
  ended_at = none;
  result_status = none;
  result_summary = none;
}

abbrev example_recovery_plan_record : RecoveryPlanRecord
example_recovery_plan_record = record {
  recovery_plan_id = codes "recovery-plan-id";
  failure_id = codes "failure-id";
  recovery_mode = resume_from_checkpoint;
  checkpoint_ref = some (codes "cp-1");
  intent_state_ref = none;
  prerequisites = [];
  requires_approval = false;
  recovery_goal = none;
  created_at = codes "2024-01-01";
}

abbrev example_recovery_execution_record : RecoveryExecutionRecord
example_recovery_execution_record = record {
  recovery_execution_id = codes "recovery-execution-id";
  recovery_plan_id = codes "recovery-plan-id";
  executor_ref = none;
  started_at = none;
  ended_at = none;
  recovery_status = none;
  residual_risks = [];
  notes = none;
}

abbrev example_compensation_action_record : CompensationActionRecord
example_compensation_action_record = record {
  compensation_action_id = codes "compensation-action-id";
  failure_id = codes "failure-id";
  action_ref = codes "action-ref";
  target_side_effect_ref = none;
  execution_order = pos 1;
  retry_policy_ref = none;
  status = failed;
  action_notes = some (codes "no access");
}

abbrev example_compensation_plan_record : CompensationPlanRecord
example_compensation_plan_record = record {
  compensation_plan_id = codes "compensation-plan-id";
  failure_id = codes "failure-id";
  actions = example_compensation_action_record ∷ [];
  plan_status = failed;
  escalation_on_failure = false;
  completed_at = none;
}

abbrev example_retry_recovery_compensation_envelope : RetryRecoveryCompensationEnvelope
example_retry_recovery_compensation_envelope = record {
  envelope_id = codes "envelope-id";
  failure = example_failure_record;
  retry_policy = some example_retry_policy_record;
  retry_attempts = example_retry_attempt_record ∷ [];
  recovery_plan = some example_recovery_plan_record;
  recovery_execution = some example_recovery_execution_record;
  compensation_plan = some example_compensation_plan_record;
  failure_disposition = some aborted;
  residual_risks = [];
}

unfoldable recovery_env : Unit {0}
unfolding check_failure_record check_retry_policy_record check_retry_attempt_record
    check_recovery_plan_record check_recovery_execution_record check_compensation_action_record
    check_compensation_plan_record check_recovery_envelope none_strategy_no_attempts
    unknown_state_blocks_safe_dispositions compensation_failures_remain_visible is_no_retry is_safe
    has_failed hides_failure is_unique set_of any? required mem? has_text run_texts
    RetryStrategy-discrete RecoveryMode-discrete CompensationStatus-discrete
    FailureDisposition-discrete ℤ-discrete ℕ_discrete
recovery_env = tt

recovery_parts_accepted :
    (check_failure_record example_failure_record ≡ ok example_failure_record)
    × (check_retry_policy_record example_retry_policy_record ≡ ok example_retry_policy_record)
    × (check_retry_attempt_record example_retry_attempt_record ≡ ok example_retry_attempt_record)
    × (check_recovery_plan_record example_recovery_plan_record ≡ ok example_recovery_plan_record)
    × (check_recovery_execution_record example_recovery_execution_record
        ≡ ok example_recovery_execution_record)
    × (check_compensation_action_record example_compensation_action_record
        ≡ ok example_compensation_action_record)
    × (check_compensation_plan_record example_compensation_plan_record
        ≡ ok example_compensation_plan_record)
    × (check_recovery_envelope example_retry_recovery_compensation_envelope
        ≡ ok example_retry_recovery_compensation_envelope)
unfolding recovery_env
recovery_parts_accepted = (refl, refl, refl, refl, refl, refl, refl, refl)

-- Side effects that nothing compensates, and that no decision waives.
uncompensated_accepted :
    let left = record example_retry_recovery_compensation_envelope {
      failure = record example_failure_record { side_effects_present = true };
      compensation_plan = none;
      failure_disposition = none;
    } in
    check_recovery_envelope left ≡ ok left
unfolding recovery_env
uncompensated_accepted = refl

check_recovery_envelope_iff_example :
    (check_recovery_envelope example_retry_recovery_compensation_envelope
      ≡ ok example_retry_recovery_compensation_envelope)
    ↔ (IsVisible example_retry_recovery_compensation_envelope
        × (example_retry_recovery_compensation_envelope
            ≡ record example_retry_recovery_compensation_envelope {
              envelope_id = strip (codes "envelope-id");
            }))
check_recovery_envelope_iff_example =
    check_recovery_envelope_iff example_retry_recovery_compensation_envelope
      example_retry_recovery_compensation_envelope
