-- ===== src/Recovery/Envelope.antt =====
-- `RetryRecoveryCompensationEnvelope` of models/retry_recovery_compensation_contract.py and its
-- validators.
-- `rp and rp.retry_strategy == RetryStrategy.none`
use nova_harness.Prelude.{
  Bool, ModelError, Option, Result, any?, codes, false, int_eq, length, ltb, nat_eq, none, ok,
  refuse, refused_by, solid, some, text_eq, ◌&&◌, ◌==◌, ◌>>=◌, ◌>>◌, ◌||◌,
}
use nova_harness.Recovery.Types.{
  CompensationActionRecord, CompensationPlanRecord, FailureDisposition, RetryPolicyRecord,
  RetryRecoveryCompensationEnvelope, compensated, compensation_status_eq, completed, failed,
  failure_disposition_eq, no_retry, recovered, recovery_mode_eq, retry_strategy_eq,
}

unfoldable pub is_no_retry : Option RetryPolicyRecord → Bool
is_no_retry none = false
is_no_retry (some rp) = rp.retry_strategy == no_retry

-- `disp in (recovered, compensated)`
unfoldable pub is_safe : Option FailureDisposition → Bool
is_safe none = false
is_safe (some disp) = disp == recovered || disp == compensated

unfoldable pub has_failed : CompensationActionRecord → Bool
has_failed a = a.status == failed

-- A plan that is completed, with an action that failed.
unfoldable pub hides_failure : Option CompensationPlanRecord → Bool
hides_failure none = false
hides_failure (some cp) = any? has_failed cp.actions && cp.plan_status == completed

module _ (x : RetryRecoveryCompensationEnvelope) where
  unfoldable pub none_strategy_no_attempts : Result ModelError (Unit {0})
  none_strategy_no_attempts =
      refuse (is_no_retry x.retry_policy && ltb 0 (length x.retry_attempts))
        (refused_by (codes "none_strategy_no_attempts"))

  unfoldable pub unknown_state_blocks_safe_dispositions : Result ModelError (Unit {0})
  unknown_state_blocks_safe_dispositions =
      refuse (x.failure.unknown_state && is_safe x.failure_disposition)
        (refused_by (codes "unknown_state_blocks_safe_dispositions"))

  unfoldable pub compensation_failures_remain_visible : Result ModelError (Unit {0})
  compensation_failures_remain_visible =
      refuse (hides_failure x.compensation_plan)
        (refused_by (codes "compensation_failures_remain_visible"))

-- The construction of an envelope from parts that have been validated.
-- `side_effects_require_compensation_or_explicit_waiver` refuses nothing.
unfoldable pub check_recovery_envelope :
    RetryRecoveryCompensationEnvelope → Result ModelError RetryRecoveryCompensationEnvelope
check_recovery_envelope x = do
  envelope_id ← solid (codes "envelope_id") x.envelope_id
  none_strategy_no_attempts x
  unknown_state_blocks_safe_dispositions x
  compensation_failures_remain_visible x
  ok (record x { envelope_id = envelope_id })
