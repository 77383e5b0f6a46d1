-- ===== src/Risk/Rules.antt =====
-- Which escalations of models/risk_escalation_approval_contract.py the validators accept.
-- The records of approval, each by another entry of the list.
use nova_harness.Prelude.{
  ==_sound, Bool-cases, List, Option, [], any?, ap, arith, codes, false, inl, inr, int_eq, is_blank,
  is_some, keep, length, length-keep, ltb_ℤ, map, mem?, nat_eq, none, ok, pos, refl, solid_iff,
  some, strip, text_eq, true, ◌&&◌, ◌↔◌, ◌∷◌, ◌≡◌,
}
use nova_harness.Risk.Envelope.{
  approved_count, check_risk_envelope, is_of_status, lets_proceed, needed_of, policy_requires,
  requires_human_approval_blocks_auto_proceed, timed_out_requires_escalation_path,
}
use nova_harness.Risk.Types.{
  EscalationDecisionRecord, HumanApprovalRecord, RiskEscalationApprovalEnvelope,
  RiskThresholdPolicy, approval_status_eq, approved, escalation_disposition_eq,
  escalation_risk_level_eq, proceed, timed_out,
}

abbrev pub approvals : RiskEscalationApprovalEnvelope → List HumanApprovalRecord
approvals x = keep (is_of_status approved) x.approval_records

requires_iff :
    (policy : Option RiskThresholdPolicy)
    → (policy_requires policy ≡ true)
      ↔ ((tp : RiskThresholdPolicy) × (policy ≡ some tp) × (tp.requires_human_approval ≡ true))
unfolding policy_requires
requires_iff none = ((λ h. cc), (λ (tp, e, _). cc))
requires_iff (some tp) = ((λ h. (tp, refl, h)), (λ (tp', e, h). cc))

proceeds_iff :
    (decision : Option EscalationDecisionRecord)
    → (lets_proceed decision ≡ true) ↔ (
        (d : EscalationDecisionRecord) × (decision ≡ some d) × (d.escalation_disposition ≡ proceed))
unfolding lets_proceed
proceeds_iff none = ((λ h. cc), (λ (d, e, _). cc))
proceeds_iff (some d) = (
  (λ h. (d, refl, ==_sound d.escalation_disposition proceed h)),
  (λ (d', e, h).
      let same : d ≡ d' = cc e in ground (arith, ap (λ z. z.escalation_disposition) same)),
)

-- A decision to proceed under a policy that asks for people has the approvals that the requirement
-- counts, or one if there is no requirement.
abbrev pub IsApproved : RiskEscalationApprovalEnvelope → Type 0
IsApproved x =
    (tp : RiskThresholdPolicy) (d : EscalationDecisionRecord)
    → x.threshold_policy ≡ some tp
    → tp.requires_human_approval ≡ true
    → x.decision ≡ some d
    → d.escalation_disposition ≡ proceed
    → ltb_ℤ (pos (length (approvals x))) (needed_of x.approval_requirement) ≡ false

auto_proceed_iff :
    (x : RiskEscalationApprovalEnvelope)
    → (requires_human_approval_blocks_auto_proceed x ≡ ok tt) ↔ IsApproved x
unfolding requires_human_approval_blocks_auto_proceed approved_count
auto_proceed_iff x =
    let requires = requires_iff x.threshold_policy in
    let proceeds = proceeds_iff x.decision in
    let counted = length-keep (is_of_status approved) x.approval_records in
    (
      (λ h tp d e asks f goes.
          ground (arith, requires.1 (tp, e, asks), proceeds.1 (d, f, goes), counted)),
      (λ a. elim (Bool-cases (policy_requires x.threshold_policy && lets_proceed x.decision)) [
        | inl both ↦
            let (tp, e, asks) = requires.0 (ground arith) in
            let (d, f, goes) = proceeds.0 (ground arith) in
            ground (arith, a tp d e asks f goes, counted)
        | inr n ↦ ground arith
      ]),
    )

-- No approval has timed out, or there is a path to escalate on.
abbrev pub HasPath : RiskEscalationApprovalEnvelope → Type 0
HasPath x =
    mem? timed_out (map (λ r. r.approval_status) x.approval_records) ≡ true
    → is_some x.escalation_path ≡ true

timed_iff :
    (records : List HumanApprovalRecord)
    → any? (is_of_status timed_out) records ≡ mem? timed_out (map (λ r. r.approval_status) records)
unfolding any? mem? is_of_status
timed_iff [] = refl
timed_iff (r ∷ records) = ground (arith, timed_iff records)

path_iff :
    (x : RiskEscalationApprovalEnvelope)
    → (timed_out_requires_escalation_path x ≡ ok tt) ↔ HasPath x
unfolding timed_out_requires_escalation_path
path_iff x =
    let timed = timed_iff x.approval_records in
    ((λ h e. ground (arith, timed)), (λ f. ground (arith, timed)))

-- An envelope is accepted exactly if its id is not blank, a decision to proceed under a policy that
-- requires human approval has as many approved records as its requirement asks for, or one if it has
-- none, and an approval that timed out has a path of escalation; then only the id is stripped.
pub check_risk_envelope_iff :
    (x y : RiskEscalationApprovalEnvelope)
    → (check_risk_envelope x ≡ ok y) ↔ (
        (is_blank x.envelope_id ≡ false)
        × IsApproved x
        × HasPath x
        × (y ≡ record x { envelope_id = strip x.envelope_id }))
unfolding check_risk_envelope
check_risk_envelope_iff x y =
    let id = solid_iff (codes "envelope_id") x.envelope_id y.envelope_id in
    let approval = auto_proceed_iff x in
    let path = path_iff x in
    (
      (λ h.
          let named = id.0 (ground arith) in
          (named.0, approval.0 (ground arith), path.0 (ground arith), ground (arith, named.1))),
      (λ (named, a, p, same).
          ground (arith, id.1 (named, ap (λ z. z.envelope_id) same), approval.1 a, path.1 p)),
    )
