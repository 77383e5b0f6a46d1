-- ===== src/Clarify/Checks.antt =====
-- The validators of the parts of models/clarification_resolution_contract.py.
use nova_harness.Prelude.{
  Bool, List, ModelError, Option, Result, Text, [], any?, codes, false, given_above, given_below,
  has_text, int_eq, ltb_ℤ, mem?, nat_eq, none, not, ok, out_of_range, pos, refuse, refused_by,
  solid, some, text_eq, ℤ, ◌&&◌, ◌==◌, ◌>>=◌, ◌>>◌, ◌||◌, ◌∷◌,
}
use nova_harness.Clarify.Types.{
  ClarificationDecisionRecord, ClarificationQuestionRecord, ClarificationSessionRecord,
  FieldResolutionRecord, MissingInfoGapRecord, ResolutionAttemptRecord, ResolutionMethod,
  ResolutionPolicyRecord, ResolutionStatus, apply_default, ask_user, blocking_severity,
  clarification_disposition_eq, closed_unresolved, deferred, escalated_clarification,
  escalated_resolution, gap_severity_eq, infer_from_context, manual_override, rejected,
  resolution_method_eq, resolution_status_eq, resolved,
}

abbrev pub resolved_states : List ResolutionStatus
resolved_states = resolved ∷ deferred ∷ escalated_resolution ∷ closed_unresolved ∷ []

abbrev pub valued_methods : List ResolutionMethod
valued_methods = ask_user ∷ infer_from_context ∷ apply_default ∷ manual_override ∷ []

abbrev pub session_statuses : List Text
session_statuses = codes "in_progress" ∷ codes "completed" ∷ codes "escalated" ∷ codes "closed" ∷ []

-- The truth of an optional number that is not negative.
abbrev pub is_positive : Option ℤ → Bool
is_positive none = false
is_positive (some n) = ltb_ℤ (pos 0) n

unfoldable pub check_missing_info_gap_record :
    MissingInfoGapRecord → Result ModelError MissingInfoGapRecord
check_missing_info_gap_record x = do
  gap_id ← solid (codes "gap_id") x.gap_id
  intake_id ← solid (codes "intake_id") x.intake_id
  field_name ← solid (codes "field_name") x.field_name
  gap_summary ← solid (codes "gap_summary") x.gap_summary
  refuse (x.gap_severity == blocking_severity && not x.blocking)
      (refused_by (codes "blocking_severity_consistency"))
  ok (record x {
    gap_id = gap_id;
    intake_id = intake_id;
    field_name = field_name;
    gap_summary = gap_summary;
  })

unfoldable pub check_clarification_question_record :
    ClarificationQuestionRecord → Result ModelError ClarificationQuestionRecord
check_clarification_question_record x = do
  question_id ← solid (codes "question_id") x.question_id
  gap_id ← solid (codes "gap_id") x.gap_id
  field_name ← solid (codes "field_name") x.field_name
  question_text ← solid (codes "question_text") x.question_text
  refuse (ltb_ℤ x.question_order (pos 0)) (out_of_range (codes "question_order"))
  ok (record x {
    question_id = question_id;
    gap_id = gap_id;
    field_name = field_name;
    question_text = question_text;
  })

unfoldable pub check_resolution_attempt_record :
    ResolutionAttemptRecord → Result ModelError ResolutionAttemptRecord
check_resolution_attempt_record x = do
  attempt_id ← solid (codes "attempt_id") x.attempt_id
  gap_id ← solid (codes "gap_id") x.gap_id
  refuse (given_below (pos 0) x.confidence || given_above (pos 100) x.confidence)
      (out_of_range (codes "confidence"))
  refuse (mem? x.resolution_method valued_methods && not (has_text x.proposed_value_ref))
      (refused_by (codes "resolved_attempt_needs_value"))
  ok (record x { attempt_id = attempt_id; gap_id = gap_id })

unfoldable pub check_field_resolution_record :
    FieldResolutionRecord → Result ModelError FieldResolutionRecord
check_field_resolution_record x = do
  field_resolution_id ← solid (codes "field_resolution_id") x.field_resolution_id
  gap_id ← solid (codes "gap_id") x.gap_id
  refuse
      (mem? x.resolution_status resolved_states
        && not (has_text x.resolved_value_ref)
        && not (has_text x.notes))
      (refused_by (codes "resolved_status_needs_value_or_notes"))
  ok (record x { field_resolution_id = field_resolution_id; gap_id = gap_id })

unfoldable pub check_resolution_policy_record :
    ResolutionPolicyRecord → Result ModelError ResolutionPolicyRecord
check_resolution_policy_record x = do
  policy_id ← solid (codes "policy_id") x.policy_id
  field_name ← solid (codes "field_name") x.field_name
  refuse (given_below (pos 1) x.escalation_threshold) (out_of_range (codes "escalation_threshold"))
  refuse (given_below (pos 1) x.max_attempts) (out_of_range (codes "max_attempts"))
  refuse (x.required && x.allow_defer && not (is_positive x.escalation_threshold))
      (refused_by (codes "required_field_disallows_defer_without_policy"))
  ok (record x { policy_id = policy_id; field_name = field_name })

unfoldable pub check_clarification_session_record :
    ClarificationSessionRecord → Result ModelError ClarificationSessionRecord
check_clarification_session_record x = do
  clarification_session_id ← solid (codes "clarification_session_id") x.clarification_session_id
  intake_id ← solid (codes "intake_id") x.intake_id
  refuse (not (mem? x.session_status session_statuses))
      (refused_by (codes "session_status_must_be_valid"))
  refuse (any? (λ q. mem? q x.completed_question_ids) x.active_question_ids)
      (refused_by (codes "no_overlap_in_question_ids"))
  ok (record x { clarification_session_id = clarification_session_id; intake_id = intake_id })

unfoldable pub check_clarification_decision_record :
    ClarificationDecisionRecord → Result ModelError ClarificationDecisionRecord
check_clarification_decision_record x = do
  decision_id ← solid (codes "decision_id") x.decision_id
  clarification_session_id ← solid (codes "clarification_session_id") x.clarification_session_id
  refuse
      ((x.clarification_disposition == rejected
          || x.clarification_disposition == escalated_clarification)
        && not (has_text x.decision_reason))
      (refused_by (codes "rejected_or_escalated_needs_reason"))
  ok (record x { decision_id = decision_id; clarification_session_id = clarification_session_id })
