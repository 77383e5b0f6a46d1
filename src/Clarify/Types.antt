-- ===== src/Clarify/Types.antt =====
-- The models of models/clarification_resolution_contract.py. A time stamp is the text that stands for it. A confidence is counted in hundredths.
use nova_harness.Prelude.{Bool, Eq, List, Option, Text, ℤ}

pub data GapType : Type 0 where
  missing_required missing_optional ambiguous_value invalid_value : GapType
  conflicting_values unsupported_request : GapType

pub data GapSeverity : Type 0 where
  low medium high blocking_severity : GapSeverity

pub data ResolutionMethod : Type 0 where
  ask_user infer_from_context apply_default manual_override defer escalate : ResolutionMethod

pub data ResolutionStatus : Type 0 where
  open_gap question_issued answered resolved deferred escalated_resolution : ResolutionStatus
  closed_unresolved : ResolutionStatus

pub data ClarificationDisposition : Type 0 where
  ready_to_proceed proceed_with_gaps awaiting_response rejected : ClarificationDisposition
  escalated_clarification : ClarificationDisposition

pub record MissingInfoGapRecord : Type 0 where
  pub gap_id : Text
  pub intake_id : Text
  pub field_name : Text
  pub gap_type : GapType
  pub gap_severity : GapSeverity
  pub blocking : Bool
  pub gap_summary : Text
  pub candidate_values : List Text
  pub detected_at : Text

pub record ClarificationQuestionRecord : Type 0 where
  pub question_id : Text
  pub gap_id : Text
  pub field_name : Text
  pub question_text : Text
  pub question_order : ℤ
  pub response_type : Option Text
  pub recommended_examples : List Text
  pub issued_at : Text

pub record ResolutionAttemptRecord : Type 0 where
  pub attempt_id : Text
  pub gap_id : Text
  pub resolution_method : ResolutionMethod
  pub attempt_input_ref : Option Text
  pub proposed_value_ref : Option Text
  pub confidence : Option ℤ
  pub attempt_reason : Option Text
  pub attempted_at : Text

pub record FieldResolutionRecord : Type 0 where
  pub field_resolution_id : Text
  pub gap_id : Text
  pub resolved_value_ref : Option Text
  pub resolution_method : ResolutionMethod
  pub resolution_status : ResolutionStatus
  pub approved_by : Option Text
  pub notes : Option Text
  pub resolved_at : Text

pub record ResolutionPolicyRecord : Type 0 where
  pub policy_id : Text
  pub field_name : Text
  pub required : Bool
  pub allow_default : Bool
  pub allow_inference : Bool
  pub allow_defer : Bool
  pub escalation_threshold : Option ℤ
  pub max_attempts : Option ℤ

pub record ClarificationSessionRecord : Type 0 where
  pub clarification_session_id : Text
  pub intake_id : Text
  pub related_gap_ids : List Text
  pub active_question_ids : List Text
  pub completed_question_ids : List Text
  pub session_status : Text
  pub started_at : Text
  pub updated_at : Text

pub record ClarificationDecisionRecord : Type 0 where
  pub decision_id : Text
  pub clarification_session_id : Text
  pub clarification_disposition : ClarificationDisposition
  pub remaining_open_gap_ids : List Text
  pub decision_reason : Option Text
  pub proceeding_constraints : List Text
  pub decided_at : Text

pub record ClarificationResolutionEnvelope : Type 0 where
  pub envelope_id : Text
  pub gaps : List MissingInfoGapRecord
  pub questions : List ClarificationQuestionRecord
  pub attempts : List ResolutionAttemptRecord
  pub field_resolutions : List FieldResolutionRecord
  pub policies : List ResolutionPolicyRecord
  pub session : ClarificationSessionRecord
  pub decision : ClarificationDecisionRecord

unfoldable pub GapSeverity-discrete : Discrete GapSeverity
GapSeverity-discrete = hlevel

instance abbrev pub gap_severity_eq : Eq GapSeverity
gap_severity_eq = record { eq? = GapSeverity-discrete }

unfoldable pub ResolutionMethod-discrete : Discrete ResolutionMethod
ResolutionMethod-discrete = hlevel

instance abbrev pub resolution_method_eq : Eq ResolutionMethod
resolution_method_eq = record { eq? = ResolutionMethod-discrete }

unfoldable pub ResolutionStatus-discrete : Discrete ResolutionStatus
ResolutionStatus-discrete = hlevel

instance abbrev pub resolution_status_eq : Eq ResolutionStatus
resolution_status_eq = record { eq? = ResolutionStatus-discrete }

unfoldable pub ClarificationDisposition-discrete : Discrete ClarificationDisposition
ClarificationDisposition-discrete = hlevel

instance abbrev pub clarification_disposition_eq : Eq ClarificationDisposition
clarification_disposition_eq = record { eq? = ClarificationDisposition-discrete }
