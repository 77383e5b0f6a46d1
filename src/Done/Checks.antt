-- ===== src/Done/Checks.antt =====
-- The validators of the parts of models/acceptance_done_contract.py.
use nova_harness.Prelude.{
  Bool, ModelError, Result, any?, codes, has_text, is_nil, ltb_ℤ, nat_eq, not, ok, out_of_range,
  pos, refuse, refused_by, solid, text_eq, ◌&&◌, ◌==◌, ◌>>=◌, ◌>>◌, ◌||◌,
}
use nova_harness.Done.Types.{
  AcceptanceCriteriaSet, AcceptanceCriterionRecord, CompletionAssessmentRecord,
  CompletionDecisionRecord, CompletionEvidenceRecord, DefinitionOfDoneCheck,
  DefinitionOfDoneProfile, accepted_with_caveats, completion_disposition_eq, criterion_status_eq,
  done_check_type_eq, done_status_eq, needs_rework, rejected, waived_criterion, waived_done,
}

-- A criterion that `required_criteria_not_waived_without_notes` stops at.
unfoldable pub is_bare_waiver : AcceptanceCriterionRecord → Bool
is_bare_waiver c = c.required && c.status == waived_criterion && not (has_text c.notes)

unfoldable pub check_acceptance_criterion_record :
    AcceptanceCriterionRecord → Result ModelError AcceptanceCriterionRecord
check_acceptance_criterion_record x = do
  criterion_id ← solid (codes "criterion_id") x.criterion_id
  task_id ← solid (codes "task_id") x.task_id
  description ← solid (codes "description") x.description
  refuse (ltb_ℤ x.priority (pos 0)) (out_of_range (codes "priority"))
  ok (record x { criterion_id = criterion_id; task_id = task_id; description = description })

unfoldable pub check_acceptance_criteria_set :
    AcceptanceCriteriaSet → Result ModelError AcceptanceCriteriaSet
check_acceptance_criteria_set x = do
  criteria_set_id ← solid (codes "criteria_set_id") x.criteria_set_id
  task_id ← solid (codes "task_id") x.task_id
  refuse (any? is_bare_waiver x.criteria)
      (refused_by (codes "required_criteria_not_waived_without_notes"))
  ok (record x { criteria_set_id = criteria_set_id; task_id = task_id })

unfoldable pub check_definition_of_done_check :
    DefinitionOfDoneCheck → Result ModelError DefinitionOfDoneCheck
check_definition_of_done_check x = do
  done_check_id ← solid (codes "done_check_id") x.done_check_id
  description ← solid (codes "description") x.description
  refuse (x.required && x.status == waived_done && not (has_text x.notes))
      (refused_by (codes "required_check_not_waived_without_notes"))
  ok (record x { done_check_id = done_check_id; description = description })

unfoldable pub check_definition_of_done_profile :
    DefinitionOfDoneProfile → Result ModelError DefinitionOfDoneProfile
check_definition_of_done_profile x = do
  dod_profile_id ← solid (codes "dod_profile_id") x.dod_profile_id
  name ← solid (codes "name") x.name
  ok (record x { dod_profile_id = dod_profile_id; name = name })

unfoldable pub check_completion_evidence_record :
    CompletionEvidenceRecord → Result ModelError CompletionEvidenceRecord
check_completion_evidence_record x = do
  evidence_id ← solid (codes "evidence_id") x.evidence_id
  task_id ← solid (codes "task_id") x.task_id
  evidence_type ← solid (codes "evidence_type") x.evidence_type
  summary ← solid (codes "summary") x.summary
  ok (record x {
    evidence_id = evidence_id;
    task_id = task_id;
    evidence_type = evidence_type;
    summary = summary;
  })

unfoldable pub check_completion_assessment_record :
    CompletionAssessmentRecord → Result ModelError CompletionAssessmentRecord
check_completion_assessment_record x = do
  assessment_id ← solid (codes "assessment_id") x.assessment_id
  task_id ← solid (codes "task_id") x.task_id
  refuse (ltb_ℤ x.criteria_met_count (pos 0)) (out_of_range (codes "criteria_met_count"))
  refuse (ltb_ℤ x.criteria_failed_count (pos 0)) (out_of_range (codes "criteria_failed_count"))
  refuse (ltb_ℤ x.dod_passed_count (pos 0)) (out_of_range (codes "dod_passed_count"))
  refuse (ltb_ℤ x.dod_failed_count (pos 0)) (out_of_range (codes "dod_failed_count"))
  ok (record x { assessment_id = assessment_id; task_id = task_id })

unfoldable pub check_completion_decision_record :
    CompletionDecisionRecord → Result ModelError CompletionDecisionRecord
check_completion_decision_record x = do
  decision_id ← solid (codes "decision_id") x.decision_id
  task_id ← solid (codes "task_id") x.task_id
  refuse
      ((x.completion_disposition == rejected || x.completion_disposition == needs_rework)
        && not (has_text x.decision_reason))
      (refused_by (codes "rejected_or_needs_rework_needs_reason"))
  refuse
      (x.completion_disposition == accepted_with_caveats
        && is_nil x.followup_actions
        && not (has_text x.decision_reason))
      (refused_by (codes "accepted_with_caveats_needs_followup"))
  ok (record x { decision_id = decision_id; task_id = task_id })
