-- ===== src/Examples/Clarifies.antt =====
-- A clarification of one gap.
use nova_harness.Prelude.{
  Memᴰ, Text, [], any?, check_every, codes, err, false, has_text, int_eq, is_blank, is_nil, keep,
  mem?, nat_eq, none, ok, pos, refer_to, refl, refused_by, required, run_texts, some, strip,
  text_eq, true, ◌||◌, ◌↔◌, ◌∷◌, ◌≡◌,
}
use nova_harness.Clarify.Answered.{check_clarification_envelope_answers}
use nova_harness.Clarify.Checks.{
  check_clarification_decision_record, check_clarification_question_record,
  check_clarification_session_record, check_field_resolution_record, check_missing_info_gap_record,
  check_resolution_attempt_record, check_resolution_policy_record, resolved_states,
}
use nova_harness.Clarify.Envelope.{
  awaiting_response_needs_open_questions, check_clarification_envelope, check_resolved, gap_ids,
  proceeds, question_ids, ready_to_proceed_no_unresolved_blocking_gaps, references_are_valid,
  resolved_gap_ids,
}
use nova_harness.Clarify.Rules.{HasNoBlock, IsReferring, check_clarification_envelope_iff}
use nova_harness.Clarify.Types.{
  ClarificationDecisionRecord, ClarificationDisposition-discrete, ClarificationQuestionRecord,
  ClarificationResolutionEnvelope, ClarificationSessionRecord, FieldResolutionRecord,
  GapSeverity-discrete, MissingInfoGapRecord, ResolutionAttemptRecord, ResolutionMethod-discrete,
  ResolutionPolicyRecord, ResolutionStatus-discrete, ask_user, awaiting_response, blocking_severity,
  clarification_disposition_eq, gap_severity_eq, missing_required, ready_to_proceed,
  resolution_method_eq, resolution_status_eq, resolved,
}

abbrev example_missing_info_gap_record : MissingInfoGapRecord
example_missing_info_gap_record = record {
  gap_id = codes "gap-id";
  intake_id = codes "intake-id";
  field_name = codes "field-name";
  gap_type = missing_required;
  gap_severity = blocking_severity;
  blocking = true;
  gap_summary = codes "gap-summary";
  candidate_values = [];
  detected_at = codes "2024-01-01";
}

abbrev example_clarification_question_record : ClarificationQuestionRecord
example_clarification_question_record = record {
  question_id = codes "question-id";
  gap_id = codes "gap-id";
  field_name = codes "field-name";
  question_text = codes "question-text";
  question_order = pos 1;
  response_type = none;
  recommended_examples = [];
  issued_at = codes "2024-01-01";
}

abbrev example_resolution_attempt_record : ResolutionAttemptRecord
example_resolution_attempt_record = record {
  attempt_id = codes "attempt-id";
  gap_id = codes "gap-id";
  resolution_method = ask_user;
  attempt_input_ref = none;
  proposed_value_ref = some (codes "value");
  confidence = some (pos 90);
  attempt_reason = none;
  attempted_at = codes "2024-01-01";
}

abbrev example_field_resolution_record : FieldResolutionRecord
example_field_resolution_record = record {
  field_resolution_id = codes "field-resolution-id";
  gap_id = codes "gap-id";
  resolved_value_ref = none;
  resolution_method = ask_user;
  resolution_status = resolved;
  approved_by = none;
  notes = some (codes "asked");
  resolved_at = codes "2024-01-01";
}

abbrev example_resolution_policy_record : ResolutionPolicyRecord
example_resolution_policy_record = record {
  policy_id = codes "policy-id";
  field_name = codes "field-name";
  required = false;
  allow_default = false;
  allow_inference = false;
  allow_defer = false;
  escalation_threshold = none;
  max_attempts = some (pos 3);
}

abbrev example_clarification_session_record : ClarificationSessionRecord
example_clarification_session_record = record {
  clarification_session_id = codes "clarification-session-id";
  intake_id = codes "intake-id";
  related_gap_ids = codes "gap-id" ∷ [];
  active_question_ids = [];
  completed_question_ids = codes "question-id" ∷ [];
  session_status = codes "completed";
  started_at = codes "2024-01-01";
  updated_at = codes "2024-01-01";
}

abbrev example_clarification_decision_record : ClarificationDecisionRecord
example_clarification_decision_record = record {
  decision_id = codes "decision-id";
  clarification_session_id = codes "clarification-session-id";
  clarification_disposition = ready_to_proceed;
  remaining_open_gap_ids = [];
  decision_reason = none;
  proceeding_constraints = [];
  decided_at = codes "2024-01-01";
}

abbrev example_clarification_resolution_envelope : ClarificationResolutionEnvelope
example_clarification_resolution_envelope = record {
  envelope_id = codes "envelope-id";
  gaps = example_missing_info_gap_record ∷ [];
  questions = example_clarification_question_record ∷ [];
  attempts = example_resolution_attempt_record ∷ [];
  field_resolutions = example_field_resolution_record ∷ [];
  policies = [];
  session = example_clarification_session_record;
  decision = example_clarification_decision_record;
}

unfoldable clarify_env : Unit {0}
unfolding check_missing_info_gap_record check_clarification_question_record
    check_resolution_attempt_record check_field_resolution_record check_resolution_policy_record
    check_clarification_session_record check_clarification_decision_record
    check_clarification_envelope references_are_valid awaiting_response_needs_open_questions
    ready_to_proceed_no_unresolved_blocking_gaps proceeds resolved_gap_ids check_resolved gap_ids
    question_ids refer_to check_every keep any? required mem? has_text run_texts
    GapSeverity-discrete ResolutionMethod-discrete ResolutionStatus-discrete
    ClarificationDisposition-discrete
clarify_env = tt

clarify_parts_accepted :
    (check_missing_info_gap_record example_missing_info_gap_record
      ≡ ok example_missing_info_gap_record)
    × (check_clarification_question_record example_clarification_question_record
        ≡ ok example_clarification_question_record)
    × (check_resolution_attempt_record example_resolution_attempt_record
        ≡ ok example_resolution_attempt_record)
    × (check_field_resolution_record example_field_resolution_record
        ≡ ok example_field_resolution_record)
    × (check_resolution_policy_record example_resolution_policy_record
        ≡ ok example_resolution_policy_record)
    × (check_clarification_session_record example_clarification_session_record
        ≡ ok example_clarification_session_record)
    × (check_clarification_decision_record example_clarification_decision_record
        ≡ ok example_clarification_decision_record)
    × (check_clarification_envelope example_clarification_resolution_envelope
        ≡ ok example_clarification_resolution_envelope)
unfolding clarify_env
clarify_parts_accepted = (refl, refl, refl, refl, refl, refl, refl, refl)

abbrev example_clarification : ClarificationResolutionEnvelope
example_clarification = example_clarification_resolution_envelope

unresolved_gap_refused :
    check_clarification_envelope (record example_clarification { field_resolutions = [] })
    ≡ err (refused_by (codes "ready_to_proceed_no_unresolved_blocking_gaps"))
unfolding clarify_env
unresolved_gap_refused = refl

check_clarification_envelope_iff_example :
    (check_clarification_envelope example_clarification ≡ ok example_clarification) ↔ (
      (is_blank (codes "envelope-id") ≡ false)
      × IsReferring example_clarification
      × (ready_to_proceed ≡ awaiting_response → is_nil {A = Text} [] ≡ false)
      × (proceeds example_clarification ≡ true → HasNoBlock example_clarification)
      × (example_clarification
          ≡ record example_clarification { envelope_id = strip (codes "envelope-id") }))
check_clarification_envelope_iff_example =
    check_clarification_envelope_iff example_clarification example_clarification

check_clarification_envelope_answers_example :
    (fr : FieldResolutionRecord) × Memᴰ fr (example_field_resolution_record ∷ [])
    × (fr.gap_id ≡ codes "gap-id")
    × (mem? fr.resolution_status resolved_states ≡ true)
    × ((has_text fr.resolved_value_ref || has_text fr.notes) ≡ true)
unfolding clarify_env
check_clarification_envelope_answers_example =
    check_clarification_envelope_answers example_clarification example_clarification
      example_missing_info_gap_record refl ((example_missing_info_gap_record, refl), tt)
      ((example_field_resolution_record, refl), tt) refl (Memᴰ.head refl) refl
