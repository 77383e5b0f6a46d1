-- ===== src/Capability/Checks.antt =====
-- The validators of the parts of models/capability_negotiation_contract.py.
use nova_harness.Prelude.{
  Bool, ModelError, Option, Result, Text, [], codes, false, has_text, int_eq, is_nil, ltb_ℤ, nat_eq,
  not, ok, out_of_range, pos, refuse, refused_by, solid, some, text_eq, text_ltb, ◌&&◌, ◌==◌, ◌>>=◌,
  ◌>>◌, ◌||◌,
}
use nova_harness.Capability.Types.{
  CapabilityDeclaration, CapabilityOfferRecord, CapabilityRequirementRecord,
  CompatibilityEvaluationRecord, CompatibilityGapRecord, NegotiatedCapabilitySet,
  NegotiationDecisionRecord, compatibility_status_eq, compatible, incompatible,
  negotiation_disposition_eq, proceed_with_fallbacks, reject, reroute,
}

-- `minimum_version and maximum_version and minimum_version > maximum_version`, where a version is a
-- text like any other.
unfoldable pub is_above : Option Text → Option Text → Bool
is_above (some []) most = false
is_above (some least) (some most) = not (is_nil most) && text_ltb most least
is_above _ _ = false

unfoldable pub check_capability_declaration :
    CapabilityDeclaration → Result ModelError CapabilityDeclaration
check_capability_declaration x = do
  declaration_id ← solid (codes "declaration_id") x.declaration_id
  party_ref ← solid (codes "party_ref") x.party_ref
  ok (record x { declaration_id = declaration_id; party_ref = party_ref })

unfoldable pub check_capability_requirement_record :
    CapabilityRequirementRecord → Result ModelError CapabilityRequirementRecord
check_capability_requirement_record x = do
  requirement_id ← solid (codes "requirement_id") x.requirement_id
  declaration_id ← solid (codes "declaration_id") x.declaration_id
  capability_name ← solid (codes "capability_name") x.capability_name
  refuse (is_above x.minimum_version x.maximum_version)
      (refused_by (codes "version_constraints_coherent"))
  ok (record x {
    requirement_id = requirement_id;
    declaration_id = declaration_id;
    capability_name = capability_name;
  })

unfoldable pub check_capability_offer_record :
    CapabilityOfferRecord → Result ModelError CapabilityOfferRecord
check_capability_offer_record x = do
  offer_id ← solid (codes "offer_id") x.offer_id
  declaration_id ← solid (codes "declaration_id") x.declaration_id
  capability_name ← solid (codes "capability_name") x.capability_name
  ok (record x {
    offer_id = offer_id;
    declaration_id = declaration_id;
    capability_name = capability_name;
  })

unfoldable pub check_compatibility_evaluation_record :
    CompatibilityEvaluationRecord → Result ModelError CompatibilityEvaluationRecord
check_compatibility_evaluation_record x = do
  evaluation_id ← solid (codes "evaluation_id") x.evaluation_id
  request_declaration_id ← solid (codes "request_declaration_id") x.request_declaration_id
  offer_declaration_id ← solid (codes "offer_declaration_id") x.offer_declaration_id
  refuse (ltb_ℤ x.score (pos 0) || ltb_ℤ (pos 10000) x.score) (out_of_range (codes "score"))
  refuse (x.compatibility_status == compatible && not (is_nil x.unmatched_requirement_ids))
      (refused_by (codes "compatible_requires_no_unmatched_required"))
  refuse (x.compatibility_status == incompatible && is_nil x.unmatched_requirement_ids)
      (refused_by (codes "incompatible_must_have_unmatched"))
  ok (record x {
    evaluation_id = evaluation_id;
    request_declaration_id = request_declaration_id;
    offer_declaration_id = offer_declaration_id;
  })

unfoldable pub check_negotiated_capability_set :
    NegotiatedCapabilitySet → Result ModelError NegotiatedCapabilitySet
check_negotiated_capability_set x = do
  negotiated_set_id ← solid (codes "negotiated_set_id") x.negotiated_set_id
  evaluation_id ← solid (codes "evaluation_id") x.evaluation_id
  ok (record x { negotiated_set_id = negotiated_set_id; evaluation_id = evaluation_id })

unfoldable pub check_compatibility_gap_record :
    CompatibilityGapRecord → Result ModelError CompatibilityGapRecord
check_compatibility_gap_record x = do
  gap_id ← solid (codes "gap_id") x.gap_id
  evaluation_id ← solid (codes "evaluation_id") x.evaluation_id
  capability_name ← solid (codes "capability_name") x.capability_name
  gap_summary ← solid (codes "gap_summary") x.gap_summary
  ok (record x {
    gap_id = gap_id;
    evaluation_id = evaluation_id;
    capability_name = capability_name;
    gap_summary = gap_summary;
  })

unfoldable pub check_negotiation_decision_record :
    NegotiationDecisionRecord → Result ModelError NegotiationDecisionRecord
check_negotiation_decision_record x = do
  decision_id ← solid (codes "decision_id") x.decision_id
  evaluation_id ← solid (codes "evaluation_id") x.evaluation_id
  refuse (x.negotiation_disposition == proceed_with_fallbacks && is_nil x.selected_fallbacks)
      (refused_by (codes "proceed_with_fallbacks_requires_fallbacks"))
  refuse
      ((x.negotiation_disposition == reroute || x.negotiation_disposition == reject)
        && not (has_text x.decision_reason))
      (refused_by (codes "reroute_or_reject_requires_reason"))
  ok (record x { decision_id = decision_id; evaluation_id = evaluation_id })
