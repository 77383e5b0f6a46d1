-- ===== src/Done/Rules.antt =====
-- Which acceptance envelopes of models/acceptance_done_contract.py the validators accept.
-- A criterion that is met, or waived with a note.
use nova_harness.Prelude.{
  All, List, Option, Text, false, has_text, is_blank, is_nil, mem?, nat_eq, none, some, text_eq,
  true, ◌||◌, ◌≡◌, ◌⊎◌,
}
use nova_harness.Done.Envelope.{criterion_ids, done_check_ids, is_release_gate}
use nova_harness.Done.Types.{
  AcceptanceCriterionRecord, AcceptanceDoneEnvelope, DefinitionOfDoneCheck, accepted,
  accepted_with_caveats, completion_disposition_eq, criterion_status_eq, done_check_type_eq,
  done_status_eq, met, passed, waived_criterion, waived_done,
}

abbrev pub IsSettled : AcceptanceCriterionRecord → Type 0
IsSettled c = (c.status ≡ met) ⊎ ((c.status ≡ waived_criterion) × (has_text c.notes ≡ true))

abbrev pub IsPassed : DefinitionOfDoneCheck → Type 0
IsPassed d = (d.status ≡ passed) ⊎ ((d.status ≡ waived_done) × (has_text d.notes ≡ true))

abbrev pub RefersTo : List Text → List Text → Option Text → Type 0
RefersTo criteria checks none = Unit
RefersTo criteria checks (some ref) = (mem? ref criteria || mem? ref checks) ≡ true

-- What the parts of an accepted envelope say.
pub record IsDone (x : AcceptanceDoneEnvelope) : Type 0 where
  pub named : is_blank x.envelope_id ≡ false
  pub evidence_known :
      All
        (λ ev. RefersTo (criterion_ids x) (done_check_ids x) ev.criterion_or_check_ref)
        x.evidence_records
  pub settled :
      x.decision.completion_disposition ≡ accepted
      → All (λ c. c.required ≡ true → IsSettled c) x.acceptance_criteria_set.criteria
        × All (λ d. d.required ≡ true → IsPassed d) x.definition_of_done_profile.checks
  pub followed :
      x.decision.completion_disposition ≡ accepted_with_caveats
      → is_nil x.decision.followup_actions ≡ false
  pub released :
      x.decision.release_ready ≡ true
      → All (λ d. is_release_gate d ≡ true → d.status ≡ passed) x.definition_of_done_profile.checks
