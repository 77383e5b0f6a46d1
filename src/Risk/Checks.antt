-- ===== src/Risk/Checks.antt =====
-- The validators of the parts of models/risk_escalation_approval_contract.py.
use nova_harness.Prelude.{
  Bool, ModelError, Option, Result, codes, false, given_below, has_text, int_eq, is_nil, is_some,
  ltb_ℤ, nat_eq, none, not, ok, out_of_range, pos, refuse, refused_by, solid, some, text_eq, ◌&&◌,
  ◌==◌, ◌>>=◌, ◌>>◌, ◌||◌,
}
use nova_harness.Risk.Types.{
  ApprovalRequirementRecord, ApprovalStatus, EscalationDecisionRecord, EscalationDisposition,
  EscalationPathRecord, EscalationRequestRecord, HumanApprovalRecord, RiskAssessmentRecord,
  RiskThresholdPolicy, approval_status_eq, approved, critical, escalation_disposition_eq,
  escalation_risk_level_eq, high, proceed, proceed_with_constraints, rejected,
}

abbrev pub is_proceed : Option EscalationDisposition → Bool
is_proceed none = false
is_proceed (some d) = d == proceed

unfoldable pub is_decided : ApprovalStatus → Bool
is_decided s = s == approved || s == rejected

unfoldable pub check_risk_assessment_record :
    RiskAssessmentRecord → Result ModelError RiskAssessmentRecord
check_risk_assessment_record x = do
  risk_assessment_id ← solid (codes "risk_assessment_id") x.risk_assessment_id
  scope_ref ← solid (codes "scope_ref") x.scope_ref
  refuse (ltb_ℤ x.risk_score (pos 0) || ltb_ℤ (pos 10000) x.risk_score)
      (out_of_range (codes "risk_score"))
  refuse (ltb_ℤ x.uncertainty_score (pos 0) || ltb_ℤ (pos 10000) x.uncertainty_score)
      (out_of_range (codes "uncertainty_score"))
  ok (record x { risk_assessment_id = risk_assessment_id; scope_ref = scope_ref })

unfoldable pub check_risk_threshold_policy :
    RiskThresholdPolicy → Result ModelError RiskThresholdPolicy
check_risk_threshold_policy x = do
  threshold_policy_id ← solid (codes "threshold_policy_id") x.threshold_policy_id
  refuse (ltb_ℤ x.minimum_risk_score (pos 0) || ltb_ℤ (pos 10000) x.minimum_risk_score)
      (out_of_range (codes "minimum_risk_score"))
  refuse (ltb_ℤ x.uncertainty_threshold (pos 0) || ltb_ℤ (pos 10000) x.uncertainty_threshold)
      (out_of_range (codes "uncertainty_threshold"))
  refuse (given_below (pos 0) x.timeout_sla_seconds) (out_of_range (codes "timeout_sla_seconds"))
  refuse (x.requires_human_approval && is_proceed x.default_disposition)
      (refused_by (codes "requires_approval_blocks_auto_proceed"))
  refuse
      ((x.minimum_risk_level == high || x.minimum_risk_level == critical)
        && not x.requires_human_approval)
      (refused_by (codes "high_critical_require_human_approval"))
  ok (record x { threshold_policy_id = threshold_policy_id })

unfoldable pub check_escalation_request_record :
    EscalationRequestRecord → Result ModelError EscalationRequestRecord
check_escalation_request_record x = do
  escalation_request_id ← solid (codes "escalation_request_id") x.escalation_request_id
  scope_ref ← solid (codes "scope_ref") x.scope_ref
  summary ← solid (codes "summary") x.summary
  ok (record x {
    escalation_request_id = escalation_request_id;
    scope_ref = scope_ref;
    summary = summary;
  })

unfoldable pub check_approval_requirement_record :
    ApprovalRequirementRecord → Result ModelError ApprovalRequirementRecord
check_approval_requirement_record x = do
  approval_requirement_id ← solid (codes "approval_requirement_id") x.approval_requirement_id
  escalation_request_id ← solid (codes "escalation_request_id") x.escalation_request_id
  refuse (ltb_ℤ x.required_approver_count (pos 1)) (out_of_range (codes "required_approver_count"))
  ok (record x {
    approval_requirement_id = approval_requirement_id;
    escalation_request_id = escalation_request_id;
  })

unfoldable pub check_human_approval_record :
    HumanApprovalRecord → Result ModelError HumanApprovalRecord
check_human_approval_record x = do
  approval_id ← solid (codes "approval_id") x.approval_id
  approval_requirement_id ← solid (codes "approval_requirement_id") x.approval_requirement_id
  refuse (is_decided x.approval_status && not (has_text x.approver_ref))
      (refused_by (codes "decided_requires_approver"))
  refuse (is_decided x.approval_status && not (has_text x.decision_notes))
      (refused_by (codes "decided_requires_notes"))
  ok (record x { approval_id = approval_id; approval_requirement_id = approval_requirement_id })

unfoldable pub check_escalation_path_record :
    EscalationPathRecord → Result ModelError EscalationPathRecord
check_escalation_path_record x = do
  path_id ← solid (codes "path_id") x.path_id
  escalation_request_id ← solid (codes "escalation_request_id") x.escalation_request_id
  refuse (ltb_ℤ x.escalation_order (pos 0)) (out_of_range (codes "escalation_order"))
  refuse (given_below (pos 0) x.next_timeout_sla_seconds)
      (out_of_range (codes "next_timeout_sla_seconds"))
  refuse (x.auto_escalate_on_timeout && not (is_some x.next_timeout_sla_seconds))
      (refused_by (codes "timeout_path_needs_sla"))
  ok (record x { path_id = path_id; escalation_request_id = escalation_request_id })

unfoldable pub check_escalation_decision_record :
    EscalationDecisionRecord → Result ModelError EscalationDecisionRecord
check_escalation_decision_record x = do
  decision_id ← solid (codes "decision_id") x.decision_id
  escalation_request_id ← solid (codes "escalation_request_id") x.escalation_request_id
  refuse (is_decided x.approval_status && not (has_text x.final_decider_ref))
      (refused_by (codes "decided_requires_decider"))
  refuse (is_decided x.approval_status && not (has_text x.decision_reason))
      (refused_by (codes "decided_requires_reason"))
  refuse (x.escalation_disposition == proceed_with_constraints && is_nil x.resume_constraints)
      (refused_by (codes "proceed_with_constraints_requires_resume_constraints"))
  ok (record x { decision_id = decision_id; escalation_request_id = escalation_request_id })
