-- ===== src/Step/Checks.antt =====
-- The validators of the parts of models/step_turn_lifecycle_contract.py.
use nova_harness.Prelude.{
  ModelError, Result, codes, is_nil, ltb_ℤ, ok, out_of_range, pos, refuse, refused_by, solid, ◌&&◌,
  ◌>>=◌, ◌>>◌, ◌||◌,
}
use nova_harness.Step.Types.{
  StepActionRecord, StepIntent, StepSelectionContext, StepTurnEnvelope, StepVerificationRecord,
}

unfoldable pub check_step_selection_context :
    StepSelectionContext → Result ModelError StepSelectionContext
check_step_selection_context x = do
  step_id ← solid (codes "step_id") x.step_id
  loop_id ← solid (codes "loop_id") x.loop_id
  ok (record x { step_id = step_id; loop_id = loop_id })

unfoldable pub check_step_intent : StepIntent → Result ModelError StepIntent
check_step_intent x = do
  intent_id ← solid (codes "intent_id") x.intent_id
  objective ← solid (codes "objective") x.objective
  refuse (is_nil x.acceptance_criteria) (refused_by (codes "acceptance_criteria_required"))
  ok (record x { intent_id = intent_id; objective = objective })

unfoldable pub check_step_action_record : StepActionRecord → Result ModelError StepActionRecord
check_step_action_record x = do
  action_id ← solid (codes "action_id") x.action_id
  ok (record x { action_id = action_id })

unfoldable pub check_step_verification_record :
    StepVerificationRecord → Result ModelError StepVerificationRecord
check_step_verification_record x = do
  verification_id ← solid (codes "verification_id") x.verification_id
  refuse (ltb_ℤ x.confidence (pos 0) || ltb_ℤ (pos 100) x.confidence)
      (out_of_range (codes "confidence"))
  refuse (x.passed && ltb_ℤ x.confidence (pos 50)) (refused_by (codes "passed_needs_confidence"))
  ok (record x { verification_id = verification_id })

unfoldable pub check_step_turn_envelope : StepTurnEnvelope → Result ModelError StepTurnEnvelope
check_step_turn_envelope x = do
  envelope_id ← solid (codes "envelope_id") x.envelope_id
  loop_id ← solid (codes "loop_id") x.loop_id
  ok (record x { envelope_id = envelope_id; loop_id = loop_id })
