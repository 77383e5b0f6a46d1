-- ===== src/Clarify/Envelope.antt =====
-- `ClarificationResolutionEnvelope` of models/clarification_resolution_contract.py and its validators.
use nova_harness.Prelude.{
  Bool, List, ModelError, Result, Text, check_every, codes, if◌then◌else◌, int_eq, is_nil, keep,
  map, mem?, nat_eq, not, ok, refer_to, refuse, refused_by, solid, text_eq, ◌&&◌, ◌==◌, ◌>>=◌, ◌>>◌,
  ◌||◌,
}
use nova_harness.Clarify.Checks.{resolved_states}
use nova_harness.Clarify.Types.{
  ClarificationResolutionEnvelope, MissingInfoGapRecord, awaiting_response,
  clarification_disposition_eq, gap_severity_eq, proceed_with_gaps, ready_to_proceed,
  resolution_method_eq, resolution_status_eq,
}

module _ (x : ClarificationResolutionEnvelope) where
  -- `_valid_gap_ids` and `_valid_question_ids`
  unfoldable pub gap_ids : List Text
  gap_ids = map (λ g. g.gap_id) x.gaps

  unfoldable pub question_ids : List Text
  question_ids = map (λ q. q.question_id) x.questions

  -- The validators that look up gaps and questions, in their order.
  unfoldable pub references_are_valid : Result ModelError (Unit {0})
  references_are_valid = do
    check_every (λ q. refer_to gap_ids (codes "questions") q.gap_id) x.questions
    check_every (λ a. refer_to gap_ids (codes "attempts") a.gap_id) x.attempts
    check_every (λ fr. refer_to gap_ids (codes "field_resolutions") fr.gap_id) x.field_resolutions
    check_every (λ gid. refer_to gap_ids (codes "related_gap_ids") gid) x.session.related_gap_ids
    check_every (λ qid. refer_to question_ids (codes "active_question_ids") qid)
        x.session.active_question_ids
    check_every (λ qid. refer_to question_ids (codes "completed_question_ids") qid)
        x.session.completed_question_ids
    check_every (λ gid. refer_to gap_ids (codes "remaining_open_gap_ids") gid)
        x.decision.remaining_open_gap_ids

  unfoldable pub awaiting_response_needs_open_questions : Result ModelError (Unit {0})
  awaiting_response_needs_open_questions =
      refuse
        (x.decision.clarification_disposition == awaiting_response
          && is_nil x.session.active_question_ids)
        (refused_by (codes "awaiting_response_needs_open_questions"))

  -- `clarification_disposition in (ready_to_proceed, proceed_with_gaps)`
  unfoldable pub proceeds : Bool
  proceeds =
      x.decision.clarification_disposition == ready_to_proceed
      || x.decision.clarification_disposition == proceed_with_gaps

  -- `resolved_gap_ids`
  unfoldable pub resolved_gap_ids : List Text
  resolved_gap_ids =
      map (λ fr. fr.gap_id)
        (keep (λ fr. mem? fr.resolution_status resolved_states) x.field_resolutions)

  unfoldable pub check_resolved : MissingInfoGapRecord → Result ModelError (Unit {0})
  check_resolved gap =
      refuse (gap.blocking && not (mem? gap.gap_id resolved_gap_ids))
        (refused_by (codes "ready_to_proceed_no_unresolved_blocking_gaps"))

  unfoldable pub ready_to_proceed_no_unresolved_blocking_gaps : Result ModelError (Unit {0})
  ready_to_proceed_no_unresolved_blocking_gaps =
      if proceeds then check_every check_resolved x.gaps else ok tt

-- The construction of an envelope from parts that have been validated.
unfoldable pub check_clarification_envelope :
    ClarificationResolutionEnvelope → Result ModelError ClarificationResolutionEnvelope
check_clarification_envelope x = do
  envelope_id ← solid (codes "envelope_id") x.envelope_id
  references_are_valid x
  awaiting_response_needs_open_questions x
  ready_to_proceed_no_unresolved_blocking_gaps x
  ok (record x { envelope_id = envelope_id })
