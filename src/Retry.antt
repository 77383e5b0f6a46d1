-- ===== src/Retry.antt =====
-- models/retry_recovery.py: rules for retries and the policy that they make up. Delays are counted in
-- hundredths of a second.
pub mod Rules
pub mod Defaults
use nova_harness.Prelude.{
  Bool, Eq, List, Option, Result, Text, [], err, false, first_repeat, ltb_ℤ, map, mem?, nat_eq,
  none, ok, pos, refuse, required, some, text_eq, ℤ, ◌&&◌, ◌>>=◌, ◌>>◌,
}

pub data FailureClass : Type 0 where
  transient_infra rate_limit model_output_invalid tool_input_invalid : FailureClass
  tool_execution_failed verification_failed approval_refused non_retryable_policy : FailureClass
  unknown_failure : FailureClass

pub data RecoveryAction : Type 0 where
  retry_action resume_from_checkpoint replan escalate_to_human fail_terminal : RecoveryAction

pub data BackoffStrategy : Type 0 where
  no_backoff fixed exponential exponential_with_jitter : BackoffStrategy

unfoldable pub FailureClass-discrete : Discrete FailureClass
FailureClass-discrete = hlevel

unfoldable pub RecoveryAction-discrete : Discrete RecoveryAction
RecoveryAction-discrete = hlevel

instance abbrev pub failure_class_eq : Eq FailureClass
failure_class_eq = record { eq? = FailureClass-discrete }

instance abbrev pub recovery_action_eq : Eq RecoveryAction
recovery_action_eq = record { eq? = RecoveryAction-discrete }

pub record RetryRule : Type 0 where
  pub failure_class : FailureClass
  pub max_attempts : ℤ
  pub backoff_strategy : BackoffStrategy
  pub base_delay_seconds : ℤ
  pub max_delay_seconds : ℤ
  pub respect_retry_after : Bool
  pub allowed_actions : List RecoveryAction
  pub requires_idempotency : Bool

pub record RecoveryDecision : Type 0 where
  pub failure_class : FailureClass
  pub chosen_action : RecoveryAction
  pub reason : Text
  pub retry_after_seconds : Option ℤ
  pub resume_from_checkpoint_id : Option Text

pub record RetryRecoveryPolicy : Type 0 where
  pub policy_id : Text
  pub rules : List RetryRule
  pub default_unknown_rule : RetryRule

pub data RetryError : Type 0 where
  max_attempts_negative delay_negative max_delay_below_base retry_without_idempotency : RetryError
  decision_reason_empty retry_after_negative retry_policy_id_empty : RetryError
  duplicate_failure_class : FailureClass → RetryError
  default_class_in_rules : RetryError

unfoldable pub check_retry_rule : RetryRule → Result RetryError RetryRule
check_retry_rule r = do
  refuse (ltb_ℤ r.max_attempts (pos 0)) max_attempts_negative
  refuse (ltb_ℤ r.base_delay_seconds (pos 0)) delay_negative
  refuse (ltb_ℤ r.max_delay_seconds (pos 0)) delay_negative
  refuse (ltb_ℤ (pos 0) r.max_delay_seconds && ltb_ℤ r.max_delay_seconds r.base_delay_seconds)
      max_delay_below_base
  refuse (r.requires_idempotency && mem? retry_action r.allowed_actions) retry_without_idempotency
  ok r

-- `value is not None and value < 0`
abbrev pub is_negative : Option ℤ → Bool
is_negative none = false
is_negative (some delay) = ltb_ℤ delay (pos 0)

unfoldable pub check_recovery_decision : RecoveryDecision → Result RetryError RecoveryDecision
check_recovery_decision d = do
  reason ← required decision_reason_empty d.reason
  refuse (is_negative d.retry_after_seconds) retry_after_negative
  ok (record d { reason = reason })

abbrev pub classes : List RetryRule → List FailureClass
classes rules = map (λ rule. rule.failure_class) rules

unfoldable pub unique_failure_classes : RetryRecoveryPolicy → Result RetryError (Unit {0})
unique_failure_classes p = elim (first_repeat [] (classes p.rules)) [
  | none ↦ ok tt
  | some c ↦ err (duplicate_failure_class c)
]

unfoldable pub check_retry_policy : RetryRecoveryPolicy → Result RetryError RetryRecoveryPolicy
check_retry_policy p = do
  policy_id ← required retry_policy_id_empty p.policy_id
  unique_failure_classes p
  refuse (mem? p.default_unknown_rule.failure_class (classes p.rules)) default_class_in_rules
  ok (record p { policy_id = policy_id })
