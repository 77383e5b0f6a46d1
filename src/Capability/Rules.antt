-- ===== src/Capability/Rules.antt =====
-- Which negotiations of models/capability_negotiation_contract.py the validators accept.
-- What a decision may be, given the evaluation and the gaps; no decision is always allowed.
use nova_harness.Prelude.{
  List, Option, ap, arith, codes, false, has_text, is_blank, is_nil, none, ok, refl, solid_iff,
  some, strip, true, ◌>>◌, ◌↔◌, ◌≡◌,
}
use nova_harness.Capability.Envelope.{
  check_capability_envelope, falls_back, incompatible_no_proceed_without_override,
  proceed_with_fallbacks_needs_gaps, proceeds_unapproved,
}
use nova_harness.Capability.Types.{
  CapabilityNegotiationEnvelope, CompatibilityGapRecord, CompatibilityStatus,
  NegotiationDecisionRecord, incompatible, proceed, proceed_with_fallbacks,
}

abbrev pub IsAllowed :
    CompatibilityStatus → List CompatibilityGapRecord → Option NegotiationDecisionRecord → Type 0
IsAllowed status gaps none = Unit
IsAllowed status gaps (some d) =
    (status ≡ incompatible
      → d.negotiation_disposition ≡ proceed
      → has_text d.approved_override_ref ≡ true)
    × (d.negotiation_disposition ≡ proceed_with_fallbacks → is_nil gaps ≡ false)

negotiated_iff :
    (x : CapabilityNegotiationEnvelope) (decision : Option NegotiationDecisionRecord)
    → x.decision ≡ decision
    → ((incompatible_no_proceed_without_override x >> proceed_with_fallbacks_needs_gaps x) ≡ ok tt)
      ↔ IsAllowed x.evaluation.compatibility_status x.gaps decision
unfolding incompatible_no_proceed_without_override proceed_with_fallbacks_needs_gaps
    proceeds_unapproved falls_back
negotiated_iff x none e = ((λ h. tt), (λ a. rw e (ground arith)))
negotiated_iff x (some d) e =
    rw e ((λ h. ((λ bad goes. ground arith), (λ back. ground arith))), (λ (f, g). ground arith))

-- An envelope is accepted exactly if its id is not blank and its decision, if there is one, proceeds
-- with incompatible parties only by an approved override, and with fallbacks only where gaps are
-- recorded; then only the id is stripped.
pub check_capability_envelope_iff :
    (x y : CapabilityNegotiationEnvelope)
    → (check_capability_envelope x ≡ ok y) ↔ (
        (is_blank x.envelope_id ≡ false)
        × IsAllowed x.evaluation.compatibility_status x.gaps x.decision
        × (y ≡ record x { envelope_id = strip x.envelope_id }))
unfolding check_capability_envelope
check_capability_envelope_iff x y =
    let id = solid_iff (codes "envelope_id") x.envelope_id y.envelope_id in
    let allowed = negotiated_iff x x.decision refl in
    (
      (λ h.
          let named = id.0 (ground arith) in
          (named.0, allowed.0 (ground arith), ground (arith, named.1))),
      (λ (named, a, same). ground (arith, id.1 (named, ap (λ z. z.envelope_id) same), allowed.1 a)),
    )
