-- ===== src/Clarify/Rules.antt =====
-- Which clarifications of models/clarification_resolution_contract.py the validators accept.
-- All references are to gaps and questions of the envelope.
use nova_harness.Prelude.{
  All, Bool-cases, Known, refer_to_each_iff, ap, arith, check_every_means, codes, false, inl, inr,
  int_eq, is_blank, is_nil, nat_eq, ok, solid_iff, strip, text_eq, true, ◌↔◌, ◌≡◌,
}
use nova_harness.Clarify.Envelope.{
  awaiting_response_needs_open_questions, check_clarification_envelope, check_resolved, gap_ids,
  proceeds, question_ids, ready_to_proceed_no_unresolved_blocking_gaps, references_are_valid,
  resolved_gap_ids,
}
use nova_harness.Clarify.Types.{
  ClarificationResolutionEnvelope, MissingInfoGapRecord, awaiting_response,
  clarification_disposition_eq, gap_severity_eq, resolution_method_eq, resolution_status_eq,
}

pub record IsReferring (x : ClarificationResolutionEnvelope) : Type 0 where
  pub questions_known : All (λ q. Known (gap_ids x) q.gap_id) x.questions
  pub attempts_known : All (λ a. Known (gap_ids x) a.gap_id) x.attempts
  pub resolutions_known : All (λ fr. Known (gap_ids x) fr.gap_id) x.field_resolutions
  pub session_gaps_known : All (Known (gap_ids x)) x.session.related_gap_ids
  pub active_known : All (Known (question_ids x)) x.session.active_question_ids
  pub completed_known : All (Known (question_ids x)) x.session.completed_question_ids
  pub open_known : All (Known (gap_ids x)) x.decision.remaining_open_gap_ids

-- For each blocking gap some resolution is in one of the final states.
abbrev pub HasNoBlock : ClarificationResolutionEnvelope → Type 0
HasNoBlock x = All (λ g. g.blocking ≡ true → Known (resolved_gap_ids x) g.gap_id) x.gaps

references_iff :
    (x : ClarificationResolutionEnvelope) → (references_are_valid x ≡ ok tt) ↔ IsReferring x
unfolding references_are_valid
references_iff x =
    let gaps = gap_ids x in
    let asked = question_ids x in
    let questions = refer_to_each_iff gaps (codes "questions") (λ q. q.gap_id) x.questions in
    let attempts = refer_to_each_iff gaps (codes "attempts") (λ a. a.gap_id) x.attempts in
    let resolutions =
      refer_to_each_iff gaps (codes "field_resolutions") (λ fr. fr.gap_id) x.field_resolutions in
    let session =
      refer_to_each_iff gaps (codes "related_gap_ids") (λ id. id) x.session.related_gap_ids in
    let active =
      refer_to_each_iff asked (codes "active_question_ids") (λ id. id)
        x.session.active_question_ids in
    let completed =
      refer_to_each_iff asked (codes "completed_question_ids") (λ id. id)
        x.session.completed_question_ids in
    let left =
      refer_to_each_iff gaps (codes "remaining_open_gap_ids") (λ id. id)
        x.decision.remaining_open_gap_ids in
    (
      (λ h. record {
        questions_known = questions.0 (ground arith);
        attempts_known = attempts.0 (ground arith);
        resolutions_known = resolutions.0 (ground arith);
        session_gaps_known = session.0 (ground arith);
        active_known = active.0 (ground arith);
        completed_known = completed.0 (ground arith);
        open_known = left.0 (ground arith);
      }),
      (λ r. ground (
        arith,
        questions.1 r.questions_known,
        attempts.1 r.attempts_known,
        resolutions.1 r.resolutions_known,
        session.1 r.session_gaps_known,
        active.1 r.active_known,
        completed.1 r.completed_known,
        left.1 r.open_known,
      )),
    )

check_resolved_iff :
    (x : ClarificationResolutionEnvelope) (g : MissingInfoGapRecord)
    → (check_resolved x g ≡ ok tt) ↔ (g.blocking ≡ true → Known (resolved_gap_ids x) g.gap_id)
unfolding check_resolved
check_resolved_iff x g = ((λ h e. ground arith), (λ f. ground arith))

proceeds_iff :
    (x : ClarificationResolutionEnvelope)
    → (ready_to_proceed_no_unresolved_blocking_gaps x ≡ ok tt) ↔ (proceeds x ≡ true → HasNoBlock x)
unfolding ready_to_proceed_no_unresolved_blocking_gaps
proceeds_iff x =
    let every = check_every_means (check_resolved x) x.gaps (check_resolved_iff x) in
    elim (Bool-cases (proceeds x)) [
      | inl e ↦ ((λ h _. every.0 (ground arith)), (λ a. ground (arith, every.1 (a e))))
      | inr e ↦ ((λ h claimed. absurd (cc (e, claimed))), (λ a. ground arith))
    ]

awaiting_iff :
    (x : ClarificationResolutionEnvelope)
    → (awaiting_response_needs_open_questions x ≡ ok tt) ↔ (
        x.decision.clarification_disposition ≡ awaiting_response
        → is_nil x.session.active_question_ids ≡ false)
unfolding awaiting_response_needs_open_questions
awaiting_iff x = ((λ h e. ground arith), (λ f. ground arith))

-- An envelope is accepted exactly if its id is not blank, its questions, attempts, resolutions, session
-- and decision refer to its own gaps and questions, a decision to await a response has an active
-- question, and one to proceed, with or without gaps, leaves no blocking gap without a resolution in a
-- final state; then only the id is stripped.
pub check_clarification_envelope_iff :
    (x y : ClarificationResolutionEnvelope)
    → (check_clarification_envelope x ≡ ok y) ↔ (
        (is_blank x.envelope_id ≡ false)
        × IsReferring x
        × (x.decision.clarification_disposition ≡ awaiting_response
            → is_nil x.session.active_question_ids ≡ false)
        × (proceeds x ≡ true → HasNoBlock x)
        × (y ≡ record x { envelope_id = strip x.envelope_id }))
unfolding check_clarification_envelope
check_clarification_envelope_iff x y =
    let id = solid_iff (codes "envelope_id") x.envelope_id y.envelope_id in
    let references = references_iff x in
    let awaiting = awaiting_iff x in
    let proceeding = proceeds_iff x in
    (
      (λ h.
          let named = id.0 (ground arith) in
          (
            named.0,
            references.0 (ground arith),
            awaiting.0 (ground arith),
            proceeding.0 (ground arith),
            ground (arith, named.1),
          )),
      (λ (named, r, a, p, same). ground (
        arith,
        id.1 (named, ap (λ z. z.envelope_id) same),
        references.1 r,
        awaiting.1 a,
        proceeding.1 p,
      )),
    )
