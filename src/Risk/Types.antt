-- ===== src/Risk/Types.antt =====
-- The models of models/risk_escalation_approval_contract.py. A time stamp is the text that stands for it. A score is
-- counted in hundredths.
use nova_harness.Prelude.{Bool, Eq, List, Option, Text, ℤ}

pub data RiskCategory : Type 0 where
  policy safety security privacy financial legal quality operational : RiskCategory

pub data EscalationRiskLevel : Type 0 where
  low medium high critical : EscalationRiskLevel

pub data EscalationTriggerType : Type 0 where
  risk_threshold budget_overrun policy_exception uncertainty_exceeded : EscalationTriggerType
  approval_required_action stalled_execution manual_request : EscalationTriggerType

pub data ApprovalStatus : Type 0 where
  not_required pending approved rejected timed_out withdrawn : ApprovalStatus

pub data EscalationDisposition : Type 0 where
  proceed proceed_with_constraints pause_for_review return_for_rework reject : EscalationDisposition
  escalate_further : EscalationDisposition

pub record RiskAssessmentRecord : Type 0 where
  pub risk_assessment_id : Text
  pub scope_ref : Text
  pub scope_type : Option Text
  pub risk_category : RiskCategory
  pub risk_level : EscalationRiskLevel
  pub risk_score : ℤ
  pub uncertainty_score : ℤ
  pub trigger_reasons : List Text
  pub evidence_refs : List Text
  pub assessed_by : Option Text
  pub assessed_at : Text

pub record RiskThresholdPolicy : Type 0 where
  pub threshold_policy_id : Text
  pub risk_category : Option RiskCategory
  pub minimum_risk_level : EscalationRiskLevel
  pub minimum_risk_score : ℤ
  pub uncertainty_threshold : ℤ
  pub trigger_type : EscalationTriggerType
  pub requires_human_approval : Bool
  pub default_disposition : Option EscalationDisposition
  pub timeout_sla_seconds : Option ℤ
  pub applicable_scope_types : List Text

pub record EscalationRequestRecord : Type 0 where
  pub escalation_request_id : Text
  pub scope_ref : Text
  pub trigger_type : EscalationTriggerType
  pub trigger_ref : Option Text
  pub risk_assessment_ref : Option Text
  pub summary : Text
  pub requested_disposition : Option EscalationDisposition
  pub requested_at : Text
  pub requester_ref : Option Text

pub record ApprovalRequirementRecord : Type 0 where
  pub approval_requirement_id : Text
  pub escalation_request_id : Text
  pub approval_scope : Option Text
  pub required_role_ids : List Text
  pub required_approver_count : ℤ
  pub allow_parallel_approval : Bool
  pub approval_deadline : Option Text
  pub approval_instructions : Option Text

pub record HumanApprovalRecord : Type 0 where
  pub approval_id : Text
  pub approval_requirement_id : Text
  pub approver_ref : Option Text
  pub approval_status : ApprovalStatus
  pub decision_notes : Option Text
  pub imposed_constraints : List Text
  pub decided_at : Text

pub record EscalationPathRecord : Type 0 where
  pub path_id : Text
  pub escalation_request_id : Text
  pub primary_approver_refs : List Text
  pub fallback_approver_refs : List Text
  pub escalation_order : ℤ
  pub auto_escalate_on_timeout : Bool
  pub next_timeout_sla_seconds : Option ℤ
  pub path_notes : Option Text

pub record EscalationDecisionRecord : Type 0 where
  pub decision_id : Text
  pub escalation_request_id : Text
  pub approval_status : ApprovalStatus
  pub escalation_disposition : EscalationDisposition
  pub final_decider_ref : Option Text
  pub decision_reason : Option Text
  pub resume_constraints : List Text
  pub followup_actions : List Text
  pub decided_at : Text

pub record RiskEscalationApprovalEnvelope : Type 0 where
  pub envelope_id : Text
  pub risk_assessment : RiskAssessmentRecord
  pub threshold_policy : Option RiskThresholdPolicy
  pub escalation_request : Option EscalationRequestRecord
  pub approval_requirement : Option ApprovalRequirementRecord
  pub approval_records : List HumanApprovalRecord
  pub escalation_path : Option EscalationPathRecord
  pub decision : Option EscalationDecisionRecord

unfoldable pub EscalationRiskLevel-discrete : Discrete EscalationRiskLevel
EscalationRiskLevel-discrete = hlevel

instance abbrev pub escalation_risk_level_eq : Eq EscalationRiskLevel
escalation_risk_level_eq = record { eq? = EscalationRiskLevel-discrete }

unfoldable pub ApprovalStatus-discrete : Discrete ApprovalStatus
ApprovalStatus-discrete = hlevel

instance abbrev pub approval_status_eq : Eq ApprovalStatus
approval_status_eq = record { eq? = ApprovalStatus-discrete }

unfoldable pub EscalationDisposition-discrete : Discrete EscalationDisposition
EscalationDisposition-discrete = hlevel

instance abbrev pub escalation_disposition_eq : Eq EscalationDisposition
escalation_disposition_eq = record { eq? = EscalationDisposition-discrete }
