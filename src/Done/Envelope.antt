-- ===== src/Done/Envelope.antt =====
-- `AcceptanceDoneEnvelope` of models/acceptance_done_contract.py and its validators.
-- `_valid_criterion_ids` and `_valid_done_check_ids`
use nova_harness.Prelude.{
  Bool, List, ModelError, Option, Result, Text, check_every, codes, false, has_text, if◌then◌else◌,
  is_nil, keep, map, mem?, nat_eq, none, not, ok, refuse, refused_by, solid, some, text_eq, ◌&&◌,
  ◌==◌, ◌>>=◌, ◌>>◌, ◌||◌,
}
use nova_harness.Done.Types.{
  AcceptanceCriterionRecord, AcceptanceDoneEnvelope, CompletionEvidenceRecord,
  DefinitionOfDoneCheck, accepted, accepted_with_caveats, completion_disposition_eq,
  criterion_status_eq, done_check_type_eq, done_status_eq, met, passed, release_gate,
  waived_criterion, waived_done,
}

abbrev pub criterion_ids : AcceptanceDoneEnvelope → List Text
criterion_ids x = map (λ c. c.criterion_id) x.acceptance_criteria_set.criteria

abbrev pub done_check_ids : AcceptanceDoneEnvelope → List Text
done_check_ids x = map (λ d. d.done_check_id) x.definition_of_done_profile.checks

-- `ref is not None`, and unknown to both sets
unfoldable pub is_unknown_ref : List Text → List Text → Option Text → Bool
is_unknown_ref criteria checks none = false
is_unknown_ref criteria checks (some ref) = not (mem? ref criteria) && not (mem? ref checks)

unfoldable pub check_evidence :
    List Text → List Text → CompletionEvidenceRecord → Result ModelError (Unit {0})
check_evidence criteria checks ev =
    refuse (is_unknown_ref criteria checks ev.criterion_or_check_ref)
      (refused_by (codes "evidence_references_valid_criterion_or_check"))

unfoldable pub evidence_references_valid : AcceptanceDoneEnvelope → Result ModelError (Unit {0})
evidence_references_valid x =
    check_every (check_evidence (criterion_ids x) (done_check_ids x)) x.evidence_records

unfoldable pub check_settled_criterion : AcceptanceCriterionRecord → Result ModelError (Unit {0})
check_settled_criterion c = do
  refuse (not (c.status == met || c.status == waived_criterion))
      (refused_by (codes "criterion_met_or_waived"))
  refuse (c.status == waived_criterion && not (has_text c.notes))
      (refused_by (codes "criterion_waived_without_notes"))

unfoldable pub check_settled_done : DefinitionOfDoneCheck → Result ModelError (Unit {0})
check_settled_done d = do
  refuse (not (d.status == passed || d.status == waived_done))
      (refused_by (codes "check_passed_or_waived"))
  refuse (d.status == waived_done && not (has_text d.notes))
      (refused_by (codes "check_waived_without_notes"))

unfoldable pub accepted_requires_settled : AcceptanceDoneEnvelope → Result ModelError (Unit {0})
accepted_requires_settled x =
    if x.decision.completion_disposition == accepted
    then check_every check_settled_criterion
        (keep (λ c. c.required) x.acceptance_criteria_set.criteria)
      >> check_every check_settled_done (keep (λ d. d.required) x.definition_of_done_profile.checks)
    else ok tt

unfoldable pub caveats_require_actions : AcceptanceDoneEnvelope → Result ModelError (Unit {0})
caveats_require_actions x =
    refuse
      (x.decision.completion_disposition == accepted_with_caveats
        && is_nil x.decision.followup_actions)
      (refused_by (codes "accepted_with_caveats_requires_actions"))

unfoldable pub is_release_gate : DefinitionOfDoneCheck → Bool
is_release_gate d = d.done_check_type == release_gate && d.required

unfoldable pub check_passed_gate : DefinitionOfDoneCheck → Result ModelError (Unit {0})
check_passed_gate d = refuse (not (d.status == passed)) (refused_by (codes "release_gate_passed"))

unfoldable pub release_requires_gates : AcceptanceDoneEnvelope → Result ModelError (Unit {0})
release_requires_gates x =
    if x.decision.release_ready
    then check_every check_passed_gate (keep is_release_gate x.definition_of_done_profile.checks)
    else ok tt

-- The construction of an envelope from parts that have been validated.
unfoldable pub check_acceptance_done_envelope :
    AcceptanceDoneEnvelope → Result ModelError AcceptanceDoneEnvelope
check_acceptance_done_envelope x = do
  envelope_id ← solid (codes "envelope_id") x.envelope_id
  evidence_references_valid x
  accepted_requires_settled x
  caveats_require_actions x
  release_requires_gates x
  ok (record x { envelope_id = envelope_id })
