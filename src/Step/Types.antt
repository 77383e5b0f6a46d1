-- ===== src/Step/Types.antt =====
-- The models of models/step_turn_lifecycle_contract.py. A time stamp is the text that stands for it. A confidence is counted in hundredths.
use nova_harness.Prelude.{Bool, Eq, List, Option, Text, ℤ}

pub data StepTriggerType : Type 0 where
  loop_iteration manual_resume recovery_resume delegation_return scheduled_tick : StepTriggerType
  external_event : StepTriggerType

pub data StepPhase : Type 0 where
  select prepare plan act verify update stop_check close : StepPhase

pub data StepTurnStatus : Type 0 where
  ready running paused blocked completed failed cancelled : StepTurnStatus

pub data StepOutcome : Type 0 where
  success partial failure no_progress handoff_required approval_required : StepOutcome

pub data StepStopReason : Type 0 where
  verified_success verification_failed tool_failure policy_block budget_exceeded : StepStopReason
  needs_human_input needs_subagent repeated_no_progress loop_termination : StepStopReason
  external_blocker : StepStopReason

pub record StepSelectionContext : Type 0 where
  pub step_id : Text
  pub loop_id : Text
  pub run_id : Option Text
  pub iteration_id : Option Text
  pub selected_task_id : Option Text
  pub selected_feature_id : Option Text
  pub selection_reason : Text
  pub priority : Text
  pub blocking_dependencies : List Text
  pub input_refs : List Text

pub record StepIntent : Type 0 where
  pub intent_id : Text
  pub objective : Text
  pub expected_output : Text
  pub acceptance_criteria : List Text
  pub verification_mode : Text
  pub allowed_actions : List Text
  pub forbidden_actions : List Text
  pub budget_hint : Option Text
  pub delegation_allowed : Bool

pub record StepActionRecord : Type 0 where
  pub action_id : Text
  pub phase : StepPhase
  pub action_type : Text
  pub started_at : Text
  pub ended_at : Option Text
  pub status : Text
  pub related_tool_call_id : Option Text
  pub related_model_call_id : Option Text
  pub artifact_refs : List Text
  pub summary : Text

pub record StepVerificationRecord : Type 0 where
  pub verification_id : Text
  pub verification_mode : Text
  pub evidence_refs : List Text
  pub checks_performed : List Text
  pub passed : Bool
  pub confidence : ℤ
  pub failure_summary : Text
  pub requires_retry : Bool
  pub requires_escalation : Bool

pub record StepStateDelta : Type 0 where
  pub updated_task_status : Option Text
  pub updated_feature_status : Option Text
  pub memory_changes : List Text
  pub state_changes : List Text
  pub new_blockers : List Text
  pub resolved_blockers : List Text
  pub new_lessons : List Text
  pub next_action : Text

pub record StepArtifactUpdateRecord : Type 0 where
  pub updated_loop_execution : Bool
  pub updated_loop_memory : Bool
  pub updated_todo : Bool
  pub updated_features : Bool
  pub updated_lessons : Bool
  pub updated_state : Bool
  pub updated_prompts : Bool
  pub updated_agent_rules : Bool
  pub updated_git_policy : Bool
  pub update_summary : Text

pub record StepLifecycleRecord : Type 0 where
  pub step_id : Text
  pub status : StepTurnStatus
  pub outcome : Option StepOutcome
  pub current_phase : StepPhase
  pub trigger_type : StepTriggerType
  pub selection_context : StepSelectionContext
  pub intent : StepIntent
  pub actions : List StepActionRecord
  pub verification : Option StepVerificationRecord
  pub state_delta : StepStateDelta
  pub artifact_updates : StepArtifactUpdateRecord
  pub started_at : Text
  pub ended_at : Option Text
  pub stop_reason : Option StepStopReason
  pub next_step_hint : Text

pub record StepTurnEnvelope : Type 0 where
  pub envelope_id : Text
  pub loop_id : Text
  pub run_id : Option Text
  pub step : StepLifecycleRecord

unfoldable pub StepPhase-discrete : Discrete StepPhase
StepPhase-discrete = hlevel

instance abbrev pub step_phase_eq : Eq StepPhase
step_phase_eq = record { eq? = StepPhase-discrete }

unfoldable pub StepTurnStatus-discrete : Discrete StepTurnStatus
StepTurnStatus-discrete = hlevel

instance abbrev pub step_turn_status_eq : Eq StepTurnStatus
step_turn_status_eq = record { eq? = StepTurnStatus-discrete }

unfoldable pub StepOutcome-discrete : Discrete StepOutcome
StepOutcome-discrete = hlevel

instance abbrev pub step_outcome_eq : Eq StepOutcome
step_outcome_eq = record { eq? = StepOutcome-discrete }
