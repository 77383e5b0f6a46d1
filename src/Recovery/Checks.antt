-- ===== src/Recovery/Checks.antt =====
-- The validators of the parts of models/retry_recovery_compensation_contract.py.
use nova_harness.Prelude.{
  ModelError, Result, codes, given_below, has_text, int_eq, is_nil, is_unique, ltb_ℤ, map, nat_eq,
  not, ok, out_of_range, pos, refuse, refused_by, solid, text_eq, ◌&&◌, ◌==◌, ◌>>=◌, ◌>>◌, ◌||◌,
}
use nova_harness.Recovery.Types.{
  CompensationActionRecord, CompensationPlanRecord, FailureRecord, RecoveryExecutionRecord,
  RecoveryPlanRecord, RetryAttemptRecord, RetryPolicyRecord, compensation_status_eq, failed,
  failure_disposition_eq, in_progress, manual_retry, no_retry, not_required, recovery_mode_eq,
  replay_from_intent, resume_from_checkpoint, retry_strategy_eq,
}

unfoldable pub check_failure_record : FailureRecord → Result ModelError FailureRecord
check_failure_record x = do
  failure_id ← solid (codes "failure_id") x.failure_id
  scope_ref ← solid (codes "scope_ref") x.scope_ref
  failure_summary ← solid (codes "failure_summary") x.failure_summary
  ok (record x {
    failure_id = failure_id;
    scope_ref = scope_ref;
    failure_summary = failure_summary;
  })

unfoldable pub check_retry_policy_record : RetryPolicyRecord → Result ModelError RetryPolicyRecord
check_retry_policy_record x = do
  retry_policy_id ← solid (codes "retry_policy_id") x.retry_policy_id
  refuse (ltb_ℤ x.max_attempts (pos 0)) (out_of_range (codes "max_attempts"))
  refuse (ltb_ℤ x.base_delay_ms (pos 0)) (out_of_range (codes "base_delay_ms"))
  refuse (ltb_ℤ x.backoff_scale_factor (pos 100)) (out_of_range (codes "backoff_scale_factor"))
  refuse (given_below (pos 0) x.max_delay_ms) (out_of_range (codes "max_delay_ms"))
  refuse (x.retry_strategy == no_retry && not (x.max_attempts == pos 0))
      (refused_by (codes "none_strategy_requires_zero_attempts"))
  refuse (x.retry_strategy == manual_retry && x.max_attempts == pos 0)
      (refused_by (codes "manual_retry_requires_attempts"))
  ok (record x { retry_policy_id = retry_policy_id })

unfoldable pub check_retry_attempt_record :
    RetryAttemptRecord → Result ModelError RetryAttemptRecord
check_retry_attempt_record x = do
  retry_attempt_id ← solid (codes "retry_attempt_id") x.retry_attempt_id
  failure_id ← solid (codes "failure_id") x.failure_id
  refuse (ltb_ℤ x.attempt_number (pos 1)) (out_of_range (codes "attempt_number"))
  refuse (ltb_ℤ x.scheduled_delay_ms (pos 0)) (out_of_range (codes "scheduled_delay_ms"))
  ok (record x { retry_attempt_id = retry_attempt_id; failure_id = failure_id })

unfoldable pub check_recovery_plan_record :
    RecoveryPlanRecord → Result ModelError RecoveryPlanRecord
check_recovery_plan_record x = do
  recovery_plan_id ← solid (codes "recovery_plan_id") x.recovery_plan_id
  failure_id ← solid (codes "failure_id") x.failure_id
  refuse (x.recovery_mode == resume_from_checkpoint && not (has_text x.checkpoint_ref))
      (refused_by (codes "checkpoint_recovery_requires_ref"))
  refuse (x.recovery_mode == replay_from_intent && not (has_text x.intent_state_ref))
      (refused_by (codes "intent_replay_requires_intent_ref"))
  ok (record x { recovery_plan_id = recovery_plan_id; failure_id = failure_id })

unfoldable pub check_recovery_execution_record :
    RecoveryExecutionRecord → Result ModelError RecoveryExecutionRecord
check_recovery_execution_record x = do
  recovery_execution_id ← solid (codes "recovery_execution_id") x.recovery_execution_id
  recovery_plan_id ← solid (codes "recovery_plan_id") x.recovery_plan_id
  ok (record x {
    recovery_execution_id = recovery_execution_id;
    recovery_plan_id = recovery_plan_id;
  })

unfoldable pub check_compensation_action_record :
    CompensationActionRecord → Result ModelError CompensationActionRecord
check_compensation_action_record x = do
  compensation_action_id ← solid (codes "compensation_action_id") x.compensation_action_id
  failure_id ← solid (codes "failure_id") x.failure_id
  action_ref ← solid (codes "action_ref") x.action_ref
  refuse (ltb_ℤ x.execution_order (pos 0)) (out_of_range (codes "execution_order"))
  refuse ((x.status == in_progress || x.status == failed) && not (has_text x.action_notes))
      (refused_by (codes "in_progress_or_failed_requires_notes"))
  ok (record x {
    compensation_action_id = compensation_action_id;
    failure_id = failure_id;
    action_ref = action_ref;
  })

unfoldable pub check_compensation_plan_record :
    CompensationPlanRecord → Result ModelError CompensationPlanRecord
check_compensation_plan_record x = do
  compensation_plan_id ← solid (codes "compensation_plan_id") x.compensation_plan_id
  failure_id ← solid (codes "failure_id") x.failure_id
  refuse (not (is_unique (map (λ a. a.execution_order) x.actions)))
      (refused_by (codes "deterministic_execution_order"))
  refuse (not (is_nil x.actions) && x.plan_status == not_required)
      (refused_by (codes "side_effects_require_compensation"))
  ok (record x { compensation_plan_id = compensation_plan_id; failure_id = failure_id })
