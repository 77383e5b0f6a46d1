-- ===== src/Examples/Risks.antt =====
-- An escalation that one person approved.
use nova_harness.Prelude.{
  [], any?, codes, count_if, err, false, has_text, int_eq, mem?, nat_eq, none, ok, pos, refl,
  refused_by, required, run_texts, some, text_eq, true, ◌∷◌, ◌≡◌,
}
use nova_harness.Risk.Checks.{
  check_approval_requirement_record, check_escalation_decision_record, check_escalation_path_record,
  check_escalation_request_record, check_human_approval_record, check_risk_assessment_record,
  check_risk_threshold_policy, is_decided,
}
use nova_harness.Risk.Envelope.{
  approved_count, check_risk_envelope, is_of_status, lets_proceed, needed_of, policy_requires,
  requires_human_approval_blocks_auto_proceed, timed_out_requires_escalation_path,
}
use nova_harness.Risk.Types.{
  ApprovalRequirementRecord, ApprovalStatus-discrete, EscalationDecisionRecord,
  EscalationDisposition-discrete, EscalationPathRecord, EscalationRequestRecord,
  EscalationRiskLevel-discrete, HumanApprovalRecord, RiskAssessmentRecord,
  RiskEscalationApprovalEnvelope, RiskThresholdPolicy, approval_status_eq, approved,
  escalation_disposition_eq, escalation_risk_level_eq, high, proceed, risk_threshold, security,
}

abbrev example_risk_assessment_record : RiskAssessmentRecord
example_risk_assessment_record = record {
  risk_assessment_id = codes "risk-assessment-id";
  scope_ref = codes "scope-ref";
  scope_type = none;
  risk_category = security;
  risk_level = high;
  risk_score = pos 1;
  uncertainty_score = pos 1;
  trigger_reasons = [];
  evidence_refs = [];
  assessed_by = none;
  assessed_at = codes "2024-01-01";
}

abbrev example_risk_threshold_policy : RiskThresholdPolicy
example_risk_threshold_policy = record {
  threshold_policy_id = codes "threshold-policy-id";
  risk_category = none;
  minimum_risk_level = high;
  minimum_risk_score = pos 1;
  uncertainty_threshold = pos 1;
  trigger_type = risk_threshold;
  requires_human_approval = true;
  default_disposition = none;
  timeout_sla_seconds = none;
  applicable_scope_types = [];
}

abbrev example_escalation_request_record : EscalationRequestRecord
example_escalation_request_record = record {
  escalation_request_id = codes "escalation-request-id";
  scope_ref = codes "scope-ref";
  trigger_type = risk_threshold;
  trigger_ref = none;
  risk_assessment_ref = none;
  summary = codes "summary";
  requested_disposition = none;
  requested_at = codes "2024-01-01";
  requester_ref = none;
}

abbrev example_approval_requirement_record : ApprovalRequirementRecord
example_approval_requirement_record = record {
  approval_requirement_id = codes "approval-requirement-id";
  escalation_request_id = codes "escalation-request-id";
  approval_scope = none;
  required_role_ids = [];
  required_approver_count = pos 1;
  allow_parallel_approval = false;
  approval_deadline = none;
  approval_instructions = none;
}

abbrev example_human_approval_record : HumanApprovalRecord
example_human_approval_record = record {
  approval_id = codes "approval-id";
  approval_requirement_id = codes "approval-requirement-id";
  approver_ref = some (codes "ann");
  approval_status = approved;
  decision_notes = some (codes "fine");
  imposed_constraints = [];
  decided_at = codes "2024-01-01";
}

abbrev example_escalation_path_record : EscalationPathRecord
example_escalation_path_record = record {
  path_id = codes "path-id";
  escalation_request_id = codes "escalation-request-id";
  primary_approver_refs = [];
  fallback_approver_refs = [];
  escalation_order = pos 1;
  auto_escalate_on_timeout = false;
  next_timeout_sla_seconds = none;
  path_notes = none;
}

abbrev example_escalation_decision_record : EscalationDecisionRecord
example_escalation_decision_record = record {
  decision_id = codes "decision-id";
  escalation_request_id = codes "escalation-request-id";
  approval_status = approved;
  escalation_disposition = proceed;
  final_decider_ref = some (codes "ann");
  decision_reason = some (codes "fine");
  resume_constraints = [];
  followup_actions = [];
  decided_at = codes "2024-01-01";
}

abbrev example_risk_escalation_approval_envelope : RiskEscalationApprovalEnvelope
example_risk_escalation_approval_envelope = record {
  envelope_id = codes "envelope-id";
  risk_assessment = example_risk_assessment_record;
  threshold_policy = some example_risk_threshold_policy;
  escalation_request = some example_escalation_request_record;
  approval_requirement = some example_approval_requirement_record;
  approval_records = example_human_approval_record ∷ [];
  escalation_path = some example_escalation_path_record;
  decision = some example_escalation_decision_record;
}

unfoldable risk_env : Unit {0}
unfolding check_risk_assessment_record check_risk_threshold_policy check_escalation_request_record
    check_approval_requirement_record check_human_approval_record check_escalation_path_record
    check_escalation_decision_record check_risk_envelope requires_human_approval_blocks_auto_proceed
    timed_out_requires_escalation_path policy_requires lets_proceed is_of_status needed_of
    approved_count is_decided count_if any? required mem? has_text run_texts
    EscalationRiskLevel-discrete ApprovalStatus-discrete EscalationDisposition-discrete
risk_env = tt

risk_parts_accepted :
    (check_risk_assessment_record example_risk_assessment_record
      ≡ ok example_risk_assessment_record)
    × (check_risk_threshold_policy example_risk_threshold_policy ≡ ok example_risk_threshold_policy)
    × (check_escalation_request_record example_escalation_request_record
        ≡ ok example_escalation_request_record)
    × (check_approval_requirement_record example_approval_requirement_record
        ≡ ok example_approval_requirement_record)
    × (check_human_approval_record example_human_approval_record ≡ ok example_human_approval_record)
    × (check_escalation_path_record example_escalation_path_record
        ≡ ok example_escalation_path_record)
    × (check_escalation_decision_record example_escalation_decision_record
        ≡ ok example_escalation_decision_record)
    × (check_risk_envelope example_risk_escalation_approval_envelope
        ≡ ok example_risk_escalation_approval_envelope)
unfolding risk_env
risk_parts_accepted = (refl, refl, refl, refl, refl, refl, refl, refl)

abbrev example_escalation : RiskEscalationApprovalEnvelope
example_escalation = example_risk_escalation_approval_envelope

unapproved_refused :
    check_risk_envelope (record example_escalation { approval_records = [] })
    ≡ err (refused_by (codes "requires_human_approval_blocks_auto_proceed"))
unfolding risk_env
unapproved_refused = refl
