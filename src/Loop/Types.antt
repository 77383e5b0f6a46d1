-- ===== src/Loop/Types.antt =====
-- The models of models/running_loop_contract.py. A time stamp is the text that stands for it.
use nova_harness.Prelude.{Bool, Eq, List, Option, Text, ℤ}

pub data LoopTriggerType : Type 0 where
  manual scheduled event recovery_resume : LoopTriggerType

pub data LoopGoalType : Type 0 where
  build repair verify_goal refactor research maintain : LoopGoalType

pub data LoopPhase : Type 0 where
  intake plan execute verify_phase update_state stop_check handoff : LoopPhase

pub data LoopStatus : Type 0 where
  ready running paused blocked completed exhausted failed : LoopStatus

pub data LoopStopReason : Type 0 where
  success no_work blocked_external max_iterations budget_exceeded : LoopStopReason
  repeated_no_progress approval_required verification_failed : LoopStopReason

pub record LoopIterationRecord : Type 0 where
  pub iteration : ℤ
  pub started_at : Text
  pub ended_at : Option Text
  pub phase_transitions : List LoopPhase
  pub selected_task_id : Option Text
  pub actions_performed : List Text
  pub artifacts_touched : List Text
  pub result_summary : Text
  pub progress_delta : Option Text
  pub verification_result : Option Text
  pub lessons_extracted : List Text
  pub next_suggested_step : Option Text

pub record LoopMemorySnapshot : Type 0 where
  pub current_objective : Text
  pub active_task_id : Option Text
  pub recent_evidence : List Text
  pub unresolved_blockers : List Text
  pub known_failures : List Text
  pub recent_lessons : List Text
  pub next_action : Text

pub record LoopExecutionPlan : Type 0 where
  pub loop_id : Text
  pub run_id : Option Text
  pub session_id : Option Text
  pub max_iterations : ℤ
  pub max_no_progress_iterations : ℤ
  pub verification_required : Bool
  pub update_artifacts_required : Bool
  pub commit_policy : Text
  pub escalation_policy : Text

pub record LoopRuleSet : Type 0 where
  pub update_per_iteration : List Text
  pub stop_conditions : List Text
  pub retry_conditions : List Text
  pub escalate_conditions : List Text
  pub commit_conditions : List Text
  pub feature_done_conditions : List Text
  pub lesson_promotion_rules : List Text

pub record RunningLoopContractEnvelope : Type 0 where
  pub envelope_id : Text
  pub status : LoopStatus
  pub stop_reason : Option LoopStopReason
  pub phase : LoopPhase
  pub goal : LoopGoalType
  pub trigger : LoopTriggerType
  pub objective : Text
  pub plan : LoopExecutionPlan
  pub rules : LoopRuleSet
  pub cycles : List LoopIterationRecord
  pub memory : LoopMemorySnapshot
  pub created_at : Text
  pub updated_at : Text

unfoldable pub LoopStatus-discrete : Discrete LoopStatus
LoopStatus-discrete = hlevel

instance abbrev pub loop_status_eq : Eq LoopStatus
loop_status_eq = record { eq? = LoopStatus-discrete }
