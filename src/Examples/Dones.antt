-- ===== src/Examples/Dones.antt =====
-- An envelope of an accepted task.
use nova_harness.Prelude.{
  [], any?, check_every, codes, err, false, has_text, keep, mem?, nat_eq, none, ok, pos, refl,
  refused_by, required, run_texts, some, text_eq, true, ◌∷◌, ◌≡◌,
}
use nova_harness.Done.Checks.{
  check_acceptance_criteria_set, check_acceptance_criterion_record,
  check_completion_assessment_record, check_completion_decision_record,
  check_completion_evidence_record, check_definition_of_done_check,
  check_definition_of_done_profile, is_bare_waiver,
}
use nova_harness.Done.Envelope.{
  accepted_requires_settled, caveats_require_actions, check_acceptance_done_envelope,
  check_evidence, check_passed_gate, check_settled_criterion, check_settled_done,
  evidence_references_valid, is_release_gate, is_unknown_ref, release_requires_gates,
}
use nova_harness.Done.Types.{
  AcceptanceCriteriaSet, AcceptanceCriterionRecord, AcceptanceDoneEnvelope,
  CompletionAssessmentRecord, CompletionDecisionRecord, CompletionDisposition-discrete,
  CompletionEvidenceRecord, CriterionStatus-discrete, DefinitionOfDoneCheck,
  DefinitionOfDoneProfile, DoneCheckType-discrete, DoneStatus-discrete, accepted,
  accepted_with_caveats, completion_disposition_eq, criterion_status_eq, done_check_type_eq,
  done_status_eq, functional, met, passed, release_gate,
}
use native.Mathlib.Decide.{ℕ_discrete}

abbrev example_acceptance_criterion_record : AcceptanceCriterionRecord
example_acceptance_criterion_record = record {
  criterion_id = codes "criterion-id";
  task_id = codes "task-id";
  criterion_type = functional;
  description = codes "description";
  priority = pos 1;
  required = true;
  test_method = none;
  expected_result = none;
  status = met;
  owner = none;
  notes = none;
}

abbrev example_acceptance_criteria_set : AcceptanceCriteriaSet
example_acceptance_criteria_set = record {
  criteria_set_id = codes "criteria-set-id";
  task_id = codes "task-id";
  title = none;
  criteria = example_acceptance_criterion_record ∷ [];
  created_by = none;
  created_at = codes "2024-01-01";
  version = codes "version";
}

abbrev example_definition_of_done_check : DefinitionOfDoneCheck
example_definition_of_done_check = record {
  done_check_id = codes "done-check-id";
  done_check_type = release_gate;
  description = codes "description";
  required = true;
  validation_method = none;
  status = passed;
  applies_to_task_types = [];
  notes = none;
}

abbrev example_definition_of_done_profile : DefinitionOfDoneProfile
example_definition_of_done_profile = record {
  dod_profile_id = codes "dod-profile-id";
  name = codes "name";
  description = none;
  checks = example_definition_of_done_check ∷ [];
  version = codes "version";
  owner = none;
  active = false;
}

abbrev example_completion_evidence_record : CompletionEvidenceRecord
example_completion_evidence_record = record {
  evidence_id = codes "evidence-id";
  task_id = codes "task-id";
  criterion_or_check_ref = some (codes "criterion-id");
  evidence_type = codes "evidence-type";
  artifact_refs = [];
  validation_refs = [];
  summary = codes "summary";
  collected_at = codes "2024-01-01";
}

abbrev example_completion_assessment_record : CompletionAssessmentRecord
example_completion_assessment_record = record {
  assessment_id = codes "assessment-id";
  task_id = codes "task-id";
  criteria_met_count = pos 1;
  criteria_failed_count = pos 1;
  dod_passed_count = pos 1;
  dod_failed_count = pos 1;
  waived_items = [];
  open_items = [];
  assessment_summary = none;
  assessed_at = codes "2024-01-01";
}

abbrev example_completion_decision_record : CompletionDecisionRecord
example_completion_decision_record = record {
  decision_id = codes "decision-id";
  task_id = codes "task-id";
  completion_disposition = accepted;
  approved_by = none;
  decision_reason = none;
  release_ready = true;
  followup_actions = [];
  decided_at = codes "2024-01-01";
}

abbrev example_acceptance_done_envelope : AcceptanceDoneEnvelope
example_acceptance_done_envelope = record {
  envelope_id = codes "envelope-id";
  acceptance_criteria_set = example_acceptance_criteria_set;
  definition_of_done_profile = example_definition_of_done_profile;
  evidence_records = example_completion_evidence_record ∷ [];
  assessment = example_completion_assessment_record;
  decision = example_completion_decision_record;
}

unfoldable done_env : Unit {0}
unfolding check_acceptance_criterion_record check_acceptance_criteria_set
    check_definition_of_done_check check_definition_of_done_profile check_completion_evidence_record
    check_completion_assessment_record check_completion_decision_record
    check_acceptance_done_envelope evidence_references_valid accepted_requires_settled
    caveats_require_actions release_requires_gates check_every check_evidence
    check_settled_criterion check_settled_done check_passed_gate is_release_gate is_unknown_ref
    is_bare_waiver keep any? required mem? has_text run_texts CriterionStatus-discrete
    DoneCheckType-discrete DoneStatus-discrete CompletionDisposition-discrete ℕ_discrete
done_env = tt

done_parts_accepted :
    (check_acceptance_criterion_record example_acceptance_criterion_record
      ≡ ok example_acceptance_criterion_record)
    × (check_acceptance_criteria_set example_acceptance_criteria_set
        ≡ ok example_acceptance_criteria_set)
    × (check_definition_of_done_check example_definition_of_done_check
        ≡ ok example_definition_of_done_check)
    × (check_definition_of_done_profile example_definition_of_done_profile
        ≡ ok example_definition_of_done_profile)
    × (check_completion_evidence_record example_completion_evidence_record
        ≡ ok example_completion_evidence_record)
    × (check_completion_assessment_record example_completion_assessment_record
        ≡ ok example_completion_assessment_record)
    × (check_completion_decision_record example_completion_decision_record
        ≡ ok example_completion_decision_record)
    × (check_acceptance_done_envelope example_acceptance_done_envelope
        ≡ ok example_acceptance_done_envelope)
unfolding done_env
done_parts_accepted = (refl, refl, refl, refl, refl, refl, refl, refl)

-- A decision with caveats and a reason alone is a decision, and no envelope has it.
abbrev reasoned : CompletionDecisionRecord
reasoned = record example_completion_decision_record {
  completion_disposition = accepted_with_caveats;
  decision_reason = some (codes "minor");
}

reasoned_alone_refused :
    (check_completion_decision_record reasoned ≡ ok reasoned)
    × (check_acceptance_done_envelope
          (record example_acceptance_done_envelope { decision = reasoned })
        ≡ err (refused_by (codes "accepted_with_caveats_requires_actions")))
unfolding done_env
reasoned_alone_refused = (refl, refl)
