-- ===== src/Budget/Types.antt =====
-- The models of models/execution_budget_resource_contract.py. A time stamp is the text that stands for it. An amount
-- is counted in thousandths, exactly, so that every amount is finite.
use nova_harness.Prelude.{Eq, List, Option, Text, ℤ}

pub data BudgetScopeType : Type 0 where
  session run task agent role branch tool_call model_call : BudgetScopeType

pub data BudgetResourceType : Type 0 where
  tokens compute_time_ms wall_clock_ms currency_cost tool_invocations : BudgetResourceType
  network_calls parallel_slots memory_mb : BudgetResourceType

pub data BudgetStatus : Type 0 where
  planned active warning exhausted overrun closed cancelled : BudgetStatus

pub data LimitSeverity : Type 0 where
  soft hard : LimitSeverity

pub data OverrunDisposition : Type 0 where
  continue_with_warning throttle require_approval reallocate stop_execution : OverrunDisposition

pub record ExecutionBudgetEnvelope : Type 0 where
  pub budget_id : Text
  pub scope_type : BudgetScopeType
  pub scope_ref : Text
  pub parent_budget_id : Option Text
  pub budget_status : BudgetStatus
  pub planning_budget_ref : Option Text
  pub execution_budget_ref : Option Text
  pub created_at : Text
  pub updated_at : Text

pub record ResourceBudgetLine : Type 0 where
  pub budget_line_id : Text
  pub budget_id : Text
  pub resource_type : BudgetResourceType
  pub allocated_amount : ℤ
  pub reserved_amount : ℤ
  pub consumed_amount : ℤ
  pub remaining_amount : ℤ
  pub unit : Text

pub record ResourceReservationRecord : Type 0 where
  pub reservation_id : Text
  pub budget_line_id : Text
  pub request_ref : Option Text
  pub reserved_amount : ℤ
  pub reservation_reason : Option Text
  pub reserved_by : Option Text
  pub reserved_at : Text
  pub expires_at : Option Text

pub record ResourceUsageRecord : Type 0 where
  pub usage_id : Text
  pub budget_line_id : Text
  pub resource_type : BudgetResourceType
  pub consumed_amount : ℤ
  pub usage_context_ref : Option Text
  pub actor_ref : Option Text
  pub source_event_ref : Option Text
  pub recorded_at : Text

pub record BudgetThresholdPolicy : Type 0 where
  pub threshold_policy_id : Text
  pub budget_line_id : Text
  pub limit_severity : LimitSeverity
  pub threshold_value : Option ℤ
  pub threshold_percent : Option ℤ
  pub action_on_cross : Text
  pub cooldown_policy : Option Text
  pub notification_targets : List Text

pub record BudgetAlertRecord : Type 0 where
  pub alert_id : Text
  pub budget_line_id : Text
  pub limit_severity : LimitSeverity
  pub trigger_value : ℤ
  pub remaining_amount : ℤ
  pub recommended_action : Option Text
  pub triggered_at : Text

pub record BudgetDecisionRecord : Type 0 where
  pub decision_id : Text
  pub budget_id : Text
  pub overrun_disposition : OverrunDisposition
  pub decision_reason : Option Text
  pub approved_by : Option Text
  pub reallocated_from_budget_id : Option Text
  pub additional_amount : Option ℤ
  pub effective_from : Text
  pub effective_until : Option Text

pub record BudgetResourceEnvelope : Type 0 where
  pub envelope_id : Text
  pub budget : ExecutionBudgetEnvelope
  pub budget_lines : List ResourceBudgetLine
  pub reservations : List ResourceReservationRecord
  pub usage_records : List ResourceUsageRecord
  pub threshold_policies : List BudgetThresholdPolicy
  pub alerts : List BudgetAlertRecord
  pub decisions : List BudgetDecisionRecord

unfoldable pub LimitSeverity-discrete : Discrete LimitSeverity
LimitSeverity-discrete = hlevel

instance abbrev pub limit_severity_eq : Eq LimitSeverity
limit_severity_eq = record { eq? = LimitSeverity-discrete }

unfoldable pub OverrunDisposition-discrete : Discrete OverrunDisposition
OverrunDisposition-discrete = hlevel

instance abbrev pub overrun_disposition_eq : Eq OverrunDisposition
overrun_disposition_eq = record { eq? = OverrunDisposition-discrete }
