-- ===== src/Examples/Capabilities.antt =====
-- A negotiation of incompatible parties with an override.
use nova_harness.Prelude.{
  [], codes, err, false, has_text, int_eq, mem?, nat_eq, none, ok, pos, refl, refused_by, required,
  run_texts, some, text_eq, text_ltb, ◌∷◌, ◌≡◌,
}
use nova_harness.Capability.Checks.{
  check_capability_declaration, check_capability_offer_record, check_capability_requirement_record,
  check_compatibility_evaluation_record, check_compatibility_gap_record,
  check_negotiated_capability_set, check_negotiation_decision_record, is_above,
}
use nova_harness.Capability.Envelope.{
  check_capability_envelope, falls_back, incompatible_no_proceed_without_override,
  proceed_with_fallbacks_needs_gaps, proceeds_unapproved,
}
use nova_harness.Capability.Types.{
  CapabilityDeclaration, CapabilityNegotiationEnvelope, CapabilityOfferRecord,
  CapabilityRequirementRecord, CompatibilityEvaluationRecord, CompatibilityGapRecord,
  CompatibilityStatus-discrete, NegotiatedCapabilitySet, NegotiationDecisionRecord,
  NegotiationDisposition-discrete, best_effort, compatibility_status_eq, incompatible,
  negotiation_disposition_eq, proceed, required_level, tooling,
}
use native.Mathlib.Decide.{ℕ_discrete}

abbrev example_capability_declaration : CapabilityDeclaration
example_capability_declaration = record {
  declaration_id = codes "declaration-id";
  party_ref = codes "party-ref";
  party_type = none;
  capability_category = tooling;
  schema_version = codes "schema-version";
  declared_at = codes "2024-01-01";
  notes = none;
}

abbrev example_capability_requirement_record : CapabilityRequirementRecord
example_capability_requirement_record = record {
  requirement_id = codes "requirement-id";
  declaration_id = codes "declaration-id";
  capability_name = codes "capability-name";
  requirement_level = required_level;
  required_values = [];
  minimum_version = some (codes "1.0");
  maximum_version = some (codes "2.0");
  constraint_notes = none;
}

abbrev example_capability_offer_record : CapabilityOfferRecord
example_capability_offer_record = record {
  offer_id = codes "offer-id";
  declaration_id = codes "declaration-id";
  capability_name = codes "capability-name";
  supported_values = [];
  supported_version = none;
  limits = [];
  conditions = [];
  notes = none;
}

abbrev example_compatibility_evaluation_record : CompatibilityEvaluationRecord
example_compatibility_evaluation_record = record {
  evaluation_id = codes "evaluation-id";
  request_declaration_id = codes "request-declaration-id";
  offer_declaration_id = codes "offer-declaration-id";
  compatibility_status = incompatible;
  matched_requirement_ids = [];
  unmatched_requirement_ids = codes "r" ∷ [];
  score = pos 1;
  evaluation_notes = none;
  evaluated_at = codes "2024-01-01";
}

abbrev example_negotiated_capability_set : NegotiatedCapabilitySet
example_negotiated_capability_set = record {
  negotiated_set_id = codes "negotiated-set-id";
  evaluation_id = codes "evaluation-id";
  negotiation_mode = best_effort;
  negotiated_capabilities = [];
  required_satisfied = [];
  optional_satisfied = [];
  session_effective_from = none;
  session_effective_until = none;
}

abbrev example_compatibility_gap_record : CompatibilityGapRecord
example_compatibility_gap_record = record {
  gap_id = codes "gap-id";
  evaluation_id = codes "evaluation-id";
  capability_name = codes "capability-name";
  gap_summary = codes "gap-summary";
  blocking = false;
  fallback_options = [];
  resolution_notes = none;
}

abbrev example_negotiation_decision_record : NegotiationDecisionRecord
example_negotiation_decision_record = record {
  decision_id = codes "decision-id";
  evaluation_id = codes "evaluation-id";
  negotiated_set_id = none;
  negotiation_disposition = proceed;
  decision_reason = none;
  selected_fallbacks = [];
  approved_override_ref = some (codes "override");
  decided_at = codes "2024-01-01";
}

abbrev example_capability_negotiation_envelope : CapabilityNegotiationEnvelope
example_capability_negotiation_envelope = record {
  envelope_id = codes "envelope-id";
  request_declaration = example_capability_declaration;
  offer_declaration = example_capability_declaration;
  evaluation = example_compatibility_evaluation_record;
  negotiated_set = some example_negotiated_capability_set;
  gaps = example_compatibility_gap_record ∷ [];
  decision = some example_negotiation_decision_record;
}

unfoldable capability_env : Unit {0}
unfolding check_capability_declaration check_capability_requirement_record
    check_capability_offer_record check_compatibility_evaluation_record
    check_negotiated_capability_set check_compatibility_gap_record check_negotiation_decision_record
    check_capability_envelope incompatible_no_proceed_without_override
    proceed_with_fallbacks_needs_gaps proceeds_unapproved falls_back is_above text_ltb required mem?
    has_text run_texts CompatibilityStatus-discrete NegotiationDisposition-discrete ℕ_discrete
capability_env = tt

capability_parts_accepted :
    (check_capability_declaration example_capability_declaration
      ≡ ok example_capability_declaration)
    × (check_capability_requirement_record example_capability_requirement_record
        ≡ ok example_capability_requirement_record)
    × (check_capability_offer_record example_capability_offer_record
        ≡ ok example_capability_offer_record)
    × (check_compatibility_evaluation_record example_compatibility_evaluation_record
        ≡ ok example_compatibility_evaluation_record)
    × (check_negotiated_capability_set example_negotiated_capability_set
        ≡ ok example_negotiated_capability_set)
    × (check_compatibility_gap_record example_compatibility_gap_record
        ≡ ok example_compatibility_gap_record)
    × (check_negotiation_decision_record example_negotiation_decision_record
        ≡ ok example_negotiation_decision_record)
    × (check_capability_envelope example_capability_negotiation_envelope
        ≡ ok example_capability_negotiation_envelope)
unfolding capability_env
capability_parts_accepted = (refl, refl, refl, refl, refl, refl, refl, refl)

-- From version 9 to version 10, which are compared as texts.
two_digits_refused :
    check_capability_requirement_record (record example_capability_requirement_record {
      minimum_version = some (codes "9.0");
      maximum_version = some (codes "10.0");
    })
    ≡ err (refused_by (codes "version_constraints_coherent"))
unfolding capability_env
two_digits_refused = refl

abbrev example_negotiation : CapabilityNegotiationEnvelope
example_negotiation = example_capability_negotiation_envelope
