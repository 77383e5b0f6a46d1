-- ===== src/Done/Types.antt =====
-- The models of models/acceptance_done_contract.py. A time stamp is the text that stands for it.
use nova_harness.Prelude.{Bool, Eq, List, Option, Text, ℤ}

pub data CriterionType : Type 0 where
  functional output quality constraint approval evidence : CriterionType

pub data CriterionStatus : Type 0 where
  not_started in_progress met failed_criterion waived_criterion : CriterionStatus

pub data DoneCheckType : Type 0 where
  quality_gate verification_gate documentation_gate policy_gate release_gate : DoneCheckType

pub data DoneStatus : Type 0 where
  not_checked passed failed_done waived_done : DoneStatus

pub data CompletionDisposition : Type 0 where
  accepted accepted_with_caveats needs_rework rejected deferred : CompletionDisposition

pub record AcceptanceCriterionRecord : Type 0 where
  pub criterion_id : Text
  pub task_id : Text
  pub criterion_type : CriterionType
  pub description : Text
  pub priority : ℤ
  pub required : Bool
  pub test_method : Option Text
  pub expected_result : Option Text
  pub status : CriterionStatus
  pub owner : Option Text
  pub notes : Option Text

pub record AcceptanceCriteriaSet : Type 0 where
  pub criteria_set_id : Text
  pub task_id : Text
  pub title : Option Text
  pub criteria : List AcceptanceCriterionRecord
  pub created_by : Option Text
  pub created_at : Text
  pub version : Text

pub record DefinitionOfDoneCheck : Type 0 where
  pub done_check_id : Text
  pub done_check_type : DoneCheckType
  pub description : Text
  pub required : Bool
  pub validation_method : Option Text
  pub status : DoneStatus
  pub applies_to_task_types : List Text
  pub notes : Option Text

pub record DefinitionOfDoneProfile : Type 0 where
  pub dod_profile_id : Text
  pub name : Text
  pub description : Option Text
  pub checks : List DefinitionOfDoneCheck
  pub version : Text
  pub owner : Option Text
  pub active : Bool

pub record CompletionEvidenceRecord : Type 0 where
  pub evidence_id : Text
  pub task_id : Text
  pub criterion_or_check_ref : Option Text
  pub evidence_type : Text
  pub artifact_refs : List Text
  pub validation_refs : List Text
  pub summary : Text
  pub collected_at : Text

pub record CompletionAssessmentRecord : Type 0 where
  pub assessment_id : Text
  pub task_id : Text
  pub criteria_met_count : ℤ
  pub criteria_failed_count : ℤ
  pub dod_passed_count : ℤ
  pub dod_failed_count : ℤ
  pub waived_items : List Text
  pub open_items : List Text
  pub assessment_summary : Option Text
  pub assessed_at : Text

pub record CompletionDecisionRecord : Type 0 where
  pub decision_id : Text
  pub task_id : Text
  pub completion_disposition : CompletionDisposition
  pub approved_by : Option Text
  pub decision_reason : Option Text
  pub release_ready : Bool
  pub followup_actions : List Text
  pub decided_at : Text

pub record AcceptanceDoneEnvelope : Type 0 where
  pub envelope_id : Text
  pub acceptance_criteria_set : AcceptanceCriteriaSet
  pub definition_of_done_profile : DefinitionOfDoneProfile
  pub evidence_records : List CompletionEvidenceRecord
  pub assessment : CompletionAssessmentRecord
  pub decision : CompletionDecisionRecord

unfoldable pub CriterionStatus-discrete : Discrete CriterionStatus
CriterionStatus-discrete = hlevel

instance abbrev pub criterion_status_eq : Eq CriterionStatus
criterion_status_eq = record { eq? = CriterionStatus-discrete }

unfoldable pub DoneCheckType-discrete : Discrete DoneCheckType
DoneCheckType-discrete = hlevel

instance abbrev pub done_check_type_eq : Eq DoneCheckType
done_check_type_eq = record { eq? = DoneCheckType-discrete }

unfoldable pub DoneStatus-discrete : Discrete DoneStatus
DoneStatus-discrete = hlevel

instance abbrev pub done_status_eq : Eq DoneStatus
done_status_eq = record { eq? = DoneStatus-discrete }

unfoldable pub CompletionDisposition-discrete : Discrete CompletionDisposition
CompletionDisposition-discrete = hlevel

instance abbrev pub completion_disposition_eq : Eq CompletionDisposition
completion_disposition_eq = record { eq? = CompletionDisposition-discrete }
