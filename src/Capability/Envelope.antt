-- ===== src/Capability/Envelope.antt =====
-- `CapabilityNegotiationEnvelope` of models/capability_negotiation_contract.py and its validators.
-- `d and d.negotiation_disposition == proceed`, without an `approved_override_ref`
use nova_harness.Prelude.{
  Bool, ModelError, Option, Result, codes, false, has_text, int_eq, is_nil, nat_eq, none, not, ok,
  refuse, refused_by, solid, some, text_eq, ◌&&◌, ◌==◌, ◌>>=◌, ◌>>◌,
}
use nova_harness.Capability.Types.{
  CapabilityNegotiationEnvelope, NegotiationDecisionRecord, compatibility_status_eq, incompatible,
  negotiation_disposition_eq, proceed, proceed_with_fallbacks,
}

unfoldable pub proceeds_unapproved : Option NegotiationDecisionRecord → Bool
proceeds_unapproved none = false
proceeds_unapproved (some d) =
    d.negotiation_disposition == proceed && not (has_text d.approved_override_ref)

unfoldable pub falls_back : Option NegotiationDecisionRecord → Bool
falls_back none = false
falls_back (some d) = d.negotiation_disposition == proceed_with_fallbacks

module _ (x : CapabilityNegotiationEnvelope) where
  unfoldable pub incompatible_no_proceed_without_override : Result ModelError (Unit {0})
  incompatible_no_proceed_without_override =
      refuse (x.evaluation.compatibility_status == incompatible && proceeds_unapproved x.decision)
        (refused_by (codes "incompatible_no_proceed_without_override"))

  unfoldable pub proceed_with_fallbacks_needs_gaps : Result ModelError (Unit {0})
  proceed_with_fallbacks_needs_gaps =
      refuse (falls_back x.decision && is_nil x.gaps)
        (refused_by (codes "proceed_with_fallbacks_needs_gaps"))

-- The construction of an envelope from parts that have been validated.
unfoldable pub check_capability_envelope :
    CapabilityNegotiationEnvelope → Result ModelError CapabilityNegotiationEnvelope
check_capability_envelope x = do
  envelope_id ← solid (codes "envelope_id") x.envelope_id
  incompatible_no_proceed_without_override x
  proceed_with_fallbacks_needs_gaps x
  ok (record x { envelope_id = envelope_id })
