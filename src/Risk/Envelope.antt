-- ===== src/Risk/Envelope.antt =====
-- `RiskEscalationApprovalEnvelope` of models/risk_escalation_approval_contract.py and its validators.
-- `tp and tp.requires_human_approval`
use nova_harness.Prelude.{
  Bool, ModelError, Option, Result, any?, codes, count_if, false, int_eq, is_some, ltb_ℤ, nat_eq,
  none, not, ok, pos, refuse, refused_by, solid, some, text_eq, ℕ, ℤ, ◌&&◌, ◌==◌, ◌>>=◌, ◌>>◌,
}
use nova_harness.Risk.Types.{
  ApprovalRequirementRecord, ApprovalStatus, EscalationDecisionRecord, HumanApprovalRecord,
  RiskEscalationApprovalEnvelope, RiskThresholdPolicy, approval_status_eq, approved,
  escalation_disposition_eq, escalation_risk_level_eq, proceed, timed_out,
}

unfoldable pub policy_requires : Option RiskThresholdPolicy → Bool
policy_requires none = false
policy_requires (some tp) = tp.requires_human_approval

-- `decision and decision.escalation_disposition == proceed`
unfoldable pub lets_proceed : Option EscalationDecisionRecord → Bool
lets_proceed none = false
lets_proceed (some d) = d.escalation_disposition == proceed

unfoldable pub is_of_status : ApprovalStatus → HumanApprovalRecord → Bool
is_of_status s r = r.approval_status == s

-- `req.required_approver_count if req else 1`
unfoldable pub needed_of : Option ApprovalRequirementRecord → ℤ
needed_of none = pos 1
needed_of (some req) = req.required_approver_count

module _ (x : RiskEscalationApprovalEnvelope) where
  unfoldable pub approved_count : ℕ
  approved_count = count_if (is_of_status approved) x.approval_records

  unfoldable pub requires_human_approval_blocks_auto_proceed : Result ModelError (Unit {0})
  requires_human_approval_blocks_auto_proceed =
      refuse
        (policy_requires x.threshold_policy
          && lets_proceed x.decision
          && ltb_ℤ (pos approved_count) (needed_of x.approval_requirement))
        (refused_by (codes "requires_human_approval_blocks_auto_proceed"))

  unfoldable pub timed_out_requires_escalation_path : Result ModelError (Unit {0})
  timed_out_requires_escalation_path =
      refuse (any? (is_of_status timed_out) x.approval_records && not (is_some x.escalation_path))
        (refused_by (codes "timed_out_requires_escalation_path"))

-- The construction of an envelope from parts that have been validated.
-- `parallel_approval_count_must_match` refuses nothing.
unfoldable pub check_risk_envelope :
    RiskEscalationApprovalEnvelope → Result ModelError RiskEscalationApprovalEnvelope
check_risk_envelope x = do
  envelope_id ← solid (codes "envelope_id") x.envelope_id
  requires_human_approval_blocks_auto_proceed x
  timed_out_requires_escalation_path x
  ok (record x { envelope_id = envelope_id })
