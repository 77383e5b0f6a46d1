-- ===== src/Step/Lifecycle.antt =====
-- `StepLifecycleRecord` of models/step_turn_lifecycle_contract.py and its validators.
-- `TERMINAL_STATUSES`
use nova_harness.Prelude.{
  Bool, List, ModelError, Option, Result, [], any?, codes, false, has_text, is_blank, is_nil,
  is_some, mem?, nat_eq, none, not, ok, refuse, refused_by, solid, some, text_eq, true, ◌&&◌, ◌==◌,
  ◌>>=◌, ◌>>◌, ◌||◌, ◌∷◌,
}
use nova_harness.Step.Types.{
  StepActionRecord, StepArtifactUpdateRecord, StepLifecycleRecord, StepOutcome, StepStateDelta,
  StepTurnStatus, StepVerificationRecord, cancelled, completed, failed, failure, no_progress,
  step_outcome_eq, step_phase_eq, step_turn_status_eq, success,
}

abbrev pub terminal_statuses : List StepTurnStatus
terminal_statuses = completed ∷ failed ∷ cancelled ∷ []

-- `outcome == o`
abbrev pub is_outcome : StepOutcome → Option StepOutcome → Bool
is_outcome o none = false
is_outcome o (some p) = p == o

-- `not v.passed` of a verification that is there, and true if there is none
unfoldable pub is_unpassed : Option StepVerificationRecord → Bool
is_unpassed none = true
is_unpassed (some v) = not v.passed

unfoldable pub has_delta : StepStateDelta → Bool
has_delta d =
    has_text d.updated_task_status
    || has_text d.updated_feature_status
    || not (is_nil d.memory_changes)
    || not (is_nil d.state_changes)
    || not (is_nil d.new_blockers)
    || not (is_nil d.resolved_blockers)
    || not (is_nil d.new_lessons)
    || not (is_nil d.next_action)

unfoldable pub has_updates : StepArtifactUpdateRecord → Bool
has_updates u =
    u.updated_loop_execution || u.updated_loop_memory || u.updated_todo || u.updated_features
    || u.updated_lessons || u.updated_state

unfoldable pub is_delegation : StepActionRecord → Bool
is_delegation a = a.action_type == codes "delegation_request"

module _ (x : StepLifecycleRecord) where
  unfoldable pub terminal_status_requires_ended_at : Result ModelError (Unit {0})
  terminal_status_requires_ended_at =
      refuse (mem? x.status terminal_statuses && not (is_some x.ended_at))
        (refused_by (codes "terminal_status_requires_ended_at"))

  unfoldable pub completed_success_needs_verification : Result ModelError (Unit {0})
  completed_success_needs_verification =
      refuse (x.status == completed && is_outcome success x.outcome && is_unpassed x.verification)
        (refused_by (codes "completed_success_needs_verification"))

  unfoldable pub failure_outcome_needs_stop_reason : Result ModelError (Unit {0})
  failure_outcome_needs_stop_reason =
      refuse
        ((is_outcome failure x.outcome || is_outcome no_progress x.outcome)
          && not (is_some x.stop_reason))
        (refused_by (codes "failure_outcome_needs_stop_reason"))

  unfoldable pub no_progress_needs_next_step_hint : Result ModelError (Unit {0})
  no_progress_needs_next_step_hint =
      refuse (is_outcome no_progress x.outcome && is_blank x.next_step_hint)
        (refused_by (codes "no_progress_needs_next_step_hint"))

  unfoldable pub state_delta_requires_artifact_updates : Result ModelError (Unit {0})
  state_delta_requires_artifact_updates =
      refuse (has_delta x.state_delta && not (has_updates x.artifact_updates))
        (refused_by (codes "state_delta_requires_artifact_updates"))

  unfoldable pub delegation_request_needs_allowed : Result ModelError (Unit {0})
  delegation_request_needs_allowed =
      refuse (any? is_delegation x.actions && not x.intent.delegation_allowed)
        (refused_by (codes "delegation_request_needs_allowed"))

-- The construction of a record from parts that have been validated.
unfoldable pub check_step_lifecycle_record :
    StepLifecycleRecord → Result ModelError StepLifecycleRecord
check_step_lifecycle_record x = do
  step_id ← solid (codes "step_id") x.step_id
  terminal_status_requires_ended_at x
  completed_success_needs_verification x
  failure_outcome_needs_stop_reason x
  no_progress_needs_next_step_hint x
  state_delta_requires_artifact_updates x
  delegation_request_needs_allowed x
  ok (record x { step_id = step_id })
