-- ===== src/Join/Types.antt =====
-- The models of models/parallel_work_join_contract.py. A time stamp is the text that stands for it, a
-- confidence is counted in hundredths.
use nova_harness.Prelude.{Bool, Eq, List, Option, Text, ℤ}

pub data ParallelizationMode : Type 0 where
  fan_out_all fan_out_selected conditional_parallel verification_parallel : ParallelizationMode
  speculative_parallel : ParallelizationMode

pub data BranchStatus : Type 0 where
  planned ready running waiting_branch completed failed_branch cancelled_branch : BranchStatus
  blocked : BranchStatus

pub data JoinPolicy : Type 0 where
  wait_for_all wait_for_quorum wait_for_first_success wait_for_required_set : JoinPolicy
  manual_join : JoinPolicy

pub data JoinStatus : Type 0 where
  pending waiting_join ready_to_merge merged partial_merge failed_join : JoinStatus
  cancelled_join : JoinStatus

pub data MergeOutcome : Type 0 where
  success partial conflict rejected needs_review : MergeOutcome

pub record ParallelWorkRequest : Type 0 where
  pub parallel_request_id : Text
  pub parent_run_id : Option Text
  pub parent_step_id : Option Text
  pub parent_graph_node_id : Option Text
  pub parallelization_mode : ParallelizationMode
  pub objective : Text
  pub branching_reason : Option Text
  pub requested_branch_count : Option ℤ
  pub join_policy : JoinPolicy
  pub created_at : Text

pub record BranchAssignmentRecord : Type 0 where
  pub branch_id : Text
  pub parallel_request_id : Text
  pub assigned_agent_id : Option Text
  pub assigned_role_id : Option Text
  pub scope_summary : Text
  pub input_refs : List Text
  pub expected_output_types : List Text
  pub dependency_refs : List Text
  pub conflict_risk : Option Text
  pub status : BranchStatus
  pub started_at : Option Text
  pub deadline_at : Option Text

pub record BranchOutputRecord : Type 0 where
  pub branch_output_id : Text
  pub branch_id : Text
  pub status : BranchStatus
  pub result_summary : Option Text
  pub output_refs : List Text
  pub evidence_refs : List Text
  pub changed_artifact_refs : List Text
  pub confidence : Option ℤ
  pub submitted_at : Option Text

pub record BranchConflictRecord : Type 0 where
  pub conflict_id : Text
  pub branch_ids : List Text
  pub conflict_type : Option Text
  pub conflict_summary : Text
  pub artifact_refs : List Text
  pub proposed_resolution : Option Text
  pub requires_review : Bool

pub record JoinRequirementRecord : Type 0 where
  pub join_requirement_id : Text
  pub parallel_request_id : Text
  pub required_branch_ids : List Text
  pub optional_branch_ids : List Text
  pub required_completion_count : Option ℤ
  pub accept_partial_failures : Bool
  pub deadline_policy : Option Text

pub record JoinExecutionRecord : Type 0 where
  pub join_id : Text
  pub parallel_request_id : Text
  pub join_policy : JoinPolicy
  pub join_status : JoinStatus
  pub completed_branch_ids : List Text
  pub failed_branch_ids : List Text
  pub late_branch_ids : List Text
  pub selected_output_refs : List Text
  pub join_notes : Option Text
  pub executed_at : Option Text

pub record MergeResultRecord : Type 0 where
  pub merge_id : Text
  pub join_id : Text
  pub merge_outcome : MergeOutcome
  pub merged_output_refs : List Text
  pub rejected_output_refs : List Text
  pub conflict_refs : List Text
  pub review_required : Bool
  pub final_summary : Option Text
  pub next_action : Option Text
  pub merged_at : Option Text

pub record ParallelJoinEnvelope : Type 0 where
  pub envelope_id : Text
  pub parallel_request : ParallelWorkRequest
  pub branch_assignments : List BranchAssignmentRecord
  pub branch_outputs : List BranchOutputRecord
  pub conflicts : List BranchConflictRecord
  pub join_requirements : JoinRequirementRecord
  pub join_execution : Option JoinExecutionRecord
  pub merge_result : Option MergeResultRecord

unfoldable pub BranchStatus-discrete : Discrete BranchStatus
BranchStatus-discrete = hlevel

instance abbrev pub branch_status_eq : Eq BranchStatus
branch_status_eq = record { eq? = BranchStatus-discrete }

unfoldable pub JoinPolicy-discrete : Discrete JoinPolicy
JoinPolicy-discrete = hlevel

instance abbrev pub join_policy_eq : Eq JoinPolicy
join_policy_eq = record { eq? = JoinPolicy-discrete }

unfoldable pub JoinStatus-discrete : Discrete JoinStatus
JoinStatus-discrete = hlevel

instance abbrev pub join_status_eq : Eq JoinStatus
join_status_eq = record { eq? = JoinStatus-discrete }
