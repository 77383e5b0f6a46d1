-- ===== src/Risk/People.antt =====
-- Who approves what the validators of models/risk_escalation_approval_contract.py let proceed, when
-- the parts of an envelope are what their own validators returned.
use nova_harness.Prelude.{has_text, ok, true, ◌≡◌}
use nova_harness.Risk.Checks.{
  check_approval_requirement_record, check_human_approval_record, check_risk_threshold_policy,
}
use nova_harness.Risk.Types.{
  ApprovalRequirementRecord, HumanApprovalRecord, RiskThresholdPolicy, approved,
}

-- What the construction of a record returned.
abbrev pub IsApprovalBuilt : HumanApprovalRecord → Type 0
IsApprovalBuilt r = (given : HumanApprovalRecord) × (check_human_approval_record given ≡ ok r)

abbrev pub IsRequirementBuilt : ApprovalRequirementRecord → Type 0
IsRequirementBuilt req =
    (given : ApprovalRequirementRecord) × (check_approval_requirement_record given ≡ ok req)

abbrev pub IsPolicyBuilt : RiskThresholdPolicy → Type 0
IsPolicyBuilt tp = (given : RiskThresholdPolicy) × (check_risk_threshold_policy given ≡ ok tp)

-- A person who approved, and said why.
abbrev pub IsNamedApproval : HumanApprovalRecord → Type 0
IsNamedApproval r =
    (r.approval_status ≡ approved)
    × (has_text r.approver_ref ≡ true)
    × (has_text r.decision_notes ≡ true)
