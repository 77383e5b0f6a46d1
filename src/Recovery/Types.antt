-- ===== src/Recovery/Types.antt =====
-- The models of models/retry_recovery_compensation_contract.py. A time stamp is the text that stands for it. A scale
-- factor is counted in hundredths.
use nova_harness.Prelude.{Bool, Eq, List, Option, Text, ℤ}

pub data FailureCategory : Type 0 where
  transient_error timeout dependency_failure validation_failure policy_block : FailureCategory
  partial_side_effect unknown_state_failure terminal_error : FailureCategory

pub data RetryStrategy : Type 0 where
  no_retry fixed linear_backoff exponential_backoff manual_retry : RetryStrategy

pub data RecoveryMode : Type 0 where
  resume_from_checkpoint replay_last_step replay_from_intent handoff_recovery : RecoveryMode
  manual_recovery no_recovery : RecoveryMode

pub data CompensationStatus : Type 0 where
  not_required planned in_progress completed failed escalated_compensation : CompensationStatus

pub data FailureDisposition : Type 0 where
  retrying recovered compensated escalated_failure aborted terminated : FailureDisposition

pub record FailureRecord : Type 0 where
  pub failure_id : Text
  pub scope_ref : Text
  pub scope_type : Option Text
  pub failure_category : FailureCategory
  pub error_code : Option Text
  pub failure_summary : Text
  pub retryable : Bool
  pub side_effects_present : Bool
  pub unknown_state : Bool
  pub evidence_refs : List Text
  pub occurred_at : Text

pub record RetryPolicyRecord : Type 0 where
  pub retry_policy_id : Text
  pub failure_category : Option FailureCategory
  pub retry_strategy : RetryStrategy
  pub max_attempts : ℤ
  pub base_delay_ms : ℤ
  pub backoff_scale_factor : ℤ
  pub max_delay_ms : Option ℤ
  pub jitter_enabled : Bool
  pub stop_conditions : List Text

pub record RetryAttemptRecord : Type 0 where
  pub retry_attempt_id : Text
  pub failure_id : Text
  pub attempt_number : ℤ
  pub scheduled_delay_ms : ℤ
  pub started_at : Option Text
  pub ended_at : Option Text
  pub result_status : Option Text
  pub result_summary : Option Text

pub record RecoveryPlanRecord : Type 0 where
  pub recovery_plan_id : Text
  pub failure_id : Text
  pub recovery_mode : RecoveryMode
  pub checkpoint_ref : Option Text
  pub intent_state_ref : Option Text
  pub prerequisites : List Text
  pub requires_approval : Bool
  pub recovery_goal : Option Text
  pub created_at : Text

pub record RecoveryExecutionRecord : Type 0 where
  pub recovery_execution_id : Text
  pub recovery_plan_id : Text
  pub executor_ref : Option Text
  pub started_at : Option Text
  pub ended_at : Option Text
  pub recovery_status : Option Text
  pub residual_risks : List Text
  pub notes : Option Text

pub record CompensationActionRecord : Type 0 where
  pub compensation_action_id : Text
  pub failure_id : Text
  pub action_ref : Text
  pub target_side_effect_ref : Option Text
  pub execution_order : ℤ
  pub retry_policy_ref : Option Text
  pub status : CompensationStatus
  pub action_notes : Option Text

pub record CompensationPlanRecord : Type 0 where
  pub compensation_plan_id : Text
  pub failure_id : Text
  pub actions : List CompensationActionRecord
  pub plan_status : CompensationStatus
  pub escalation_on_failure : Bool
  pub completed_at : Option Text

pub record RetryRecoveryCompensationEnvelope : Type 0 where
  pub envelope_id : Text
  pub failure : FailureRecord
  pub retry_policy : Option RetryPolicyRecord
  pub retry_attempts : List RetryAttemptRecord
  pub recovery_plan : Option RecoveryPlanRecord
  pub recovery_execution : Option RecoveryExecutionRecord
  pub compensation_plan : Option CompensationPlanRecord
  pub failure_disposition : Option FailureDisposition
  pub residual_risks : List Text

unfoldable pub RetryStrategy-discrete : Discrete RetryStrategy
RetryStrategy-discrete = hlevel

instance abbrev pub retry_strategy_eq : Eq RetryStrategy
retry_strategy_eq = record { eq? = RetryStrategy-discrete }

unfoldable pub RecoveryMode-discrete : Discrete RecoveryMode
RecoveryMode-discrete = hlevel

instance abbrev pub recovery_mode_eq : Eq RecoveryMode
recovery_mode_eq = record { eq? = RecoveryMode-discrete }

unfoldable pub CompensationStatus-discrete : Discrete CompensationStatus
CompensationStatus-discrete = hlevel

instance abbrev pub compensation_status_eq : Eq CompensationStatus
compensation_status_eq = record { eq? = CompensationStatus-discrete }

unfoldable pub FailureDisposition-discrete : Discrete FailureDisposition
FailureDisposition-discrete = hlevel

instance abbrev pub failure_disposition_eq : Eq FailureDisposition
failure_disposition_eq = record { eq? = FailureDisposition-discrete }
