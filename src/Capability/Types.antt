-- ===== src/Capability/Types.antt =====
-- The models of models/capability_negotiation_contract.py. A time stamp is the text that stands for it. A score is
-- counted in hundredths.
use nova_harness.Prelude.{Bool, Eq, List, Option, Text, ℤ}

pub data CapabilityCategory : Type 0 where
  tooling model_behavior skill_support output_format context_window : CapabilityCategory
  safety_control integration interaction_mode : CapabilityCategory

pub data CompatibilityStatus : Type 0 where
  compatible partially_compatible incompatible unknown : CompatibilityStatus

pub data NegotiationMode : Type 0 where
  strict_intersection best_effort required_only manual_override : NegotiationMode

pub data RequirementLevel : Type 0 where
  required_level preferred_level optional_level : RequirementLevel

pub data NegotiationDisposition : Type 0 where
  proceed proceed_with_fallbacks reroute reject escalate : NegotiationDisposition

pub record CapabilityDeclaration : Type 0 where
  pub declaration_id : Text
  pub party_ref : Text
  pub party_type : Option Text
  pub capability_category : CapabilityCategory
  pub schema_version : Text
  pub declared_at : Text
  pub notes : Option Text

pub record CapabilityRequirementRecord : Type 0 where
  pub requirement_id : Text
  pub declaration_id : Text
  pub capability_name : Text
  pub requirement_level : RequirementLevel
  pub required_values : List Text
  pub minimum_version : Option Text
  pub maximum_version : Option Text
  pub constraint_notes : Option Text

pub record CapabilityOfferRecord : Type 0 where
  pub offer_id : Text
  pub declaration_id : Text
  pub capability_name : Text
  pub supported_values : List Text
  pub supported_version : Option Text
  pub limits : List Text
  pub conditions : List Text
  pub notes : Option Text

pub record CompatibilityEvaluationRecord : Type 0 where
  pub evaluation_id : Text
  pub request_declaration_id : Text
  pub offer_declaration_id : Text
  pub compatibility_status : CompatibilityStatus
  pub matched_requirement_ids : List Text
  pub unmatched_requirement_ids : List Text
  pub score : ℤ
  pub evaluation_notes : Option Text
  pub evaluated_at : Text

pub record NegotiatedCapabilitySet : Type 0 where
  pub negotiated_set_id : Text
  pub evaluation_id : Text
  pub negotiation_mode : NegotiationMode
  pub negotiated_capabilities : List Text
  pub required_satisfied : List Text
  pub optional_satisfied : List Text
  pub session_effective_from : Option Text
  pub session_effective_until : Option Text

pub record CompatibilityGapRecord : Type 0 where
  pub gap_id : Text
  pub evaluation_id : Text
  pub capability_name : Text
  pub gap_summary : Text
  pub blocking : Bool
  pub fallback_options : List Text
  pub resolution_notes : Option Text

pub record NegotiationDecisionRecord : Type 0 where
  pub decision_id : Text
  pub evaluation_id : Text
  pub negotiated_set_id : Option Text
  pub negotiation_disposition : NegotiationDisposition
  pub decision_reason : Option Text
  pub selected_fallbacks : List Text
  pub approved_override_ref : Option Text
  pub decided_at : Text

pub record CapabilityNegotiationEnvelope : Type 0 where
  pub envelope_id : Text
  pub request_declaration : CapabilityDeclaration
  pub offer_declaration : CapabilityDeclaration
  pub evaluation : CompatibilityEvaluationRecord
  pub negotiated_set : Option NegotiatedCapabilitySet
  pub gaps : List CompatibilityGapRecord
  pub decision : Option NegotiationDecisionRecord

unfoldable pub CompatibilityStatus-discrete : Discrete CompatibilityStatus
CompatibilityStatus-discrete = hlevel

instance abbrev pub compatibility_status_eq : Eq CompatibilityStatus
compatibility_status_eq = record { eq? = CompatibilityStatus-discrete }

unfoldable pub NegotiationDisposition-discrete : Discrete NegotiationDisposition
NegotiationDisposition-discrete = hlevel

instance abbrev pub negotiation_disposition_eq : Eq NegotiationDisposition
negotiation_disposition_eq = record { eq? = NegotiationDisposition-discrete }
