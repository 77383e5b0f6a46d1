-- ===== src/Step/Rules.antt =====
-- Which steps of models/step_turn_lifecycle_contract.py the validators accept.
use nova_harness.Prelude.{
  ==_sound, All, Bool-cases, List, Option, [], any?, ap, arith, codes, false, inl, inr, int_eq,
  is_blank, is_some, mem?, nat_eq, none, ok, refl, solid_iff, some, strip, text_eq, true, ◌&&◌,
  ◌==◌, ◌↔◌, ◌∷◌, ◌≡◌, ◌⊎◌,
}
use nova_harness.Step.Lifecycle.{
  check_step_lifecycle_record, completed_success_needs_verification,
  delegation_request_needs_allowed, failure_outcome_needs_stop_reason, has_delta, has_updates,
  is_delegation, is_outcome, is_unpassed, no_progress_needs_next_step_hint,
  state_delta_requires_artifact_updates, terminal_status_requires_ended_at, terminal_statuses,
}
use nova_harness.Step.Types.{
  StepActionRecord, StepLifecycleRecord, StepOutcome, StepVerificationRecord, completed, failure,
  no_progress, step_outcome_eq, step_phase_eq, step_turn_status_eq, success,
}

abbrev pub HasPassed : Option StepVerificationRecord → Type 0
HasPassed none = ⊥
HasPassed (some v) = v.passed ≡ true

passed_iff : (v : Option StepVerificationRecord) → (is_unpassed v ≡ false) ↔ HasPassed v
unfolding is_unpassed
passed_iff none = ((λ h. cc), (λ p. absurd p))
passed_iff (some v) = ((λ h. ground arith), (λ p. ground arith))

outcome_iff : (o : StepOutcome) (r : Option StepOutcome) → (is_outcome o r ≡ true) ↔ (r ≡ some o)
outcome_iff o none = ((λ h. cc), (λ e. cc))
outcome_iff o (some p) = ((λ h. ap some (==_sound p o h)), (λ e. ground (arith, e)))

any_iff :
    (actions : List StepActionRecord)
    → (any? is_delegation actions ≡ false) ↔ All (λ a. is_delegation a ≡ false) actions
unfolding any?
any_iff [] = ((λ h. tt), (λ a. refl))
any_iff (a ∷ actions) =
    let ih = any_iff actions in
    ((λ h. (ground arith, ih.0 (ground arith))), (λ n. ground (arith, n.0, ih.1 n.1)))

module _ (x : StepLifecycleRecord) where
  result_iff :
      (completed_success_needs_verification x ≡ ok tt)
      ↔ (x.status ≡ completed → x.outcome ≡ some success → HasPassed x.verification)
  unfolding completed_success_needs_verification
  result_iff =
      let passed = passed_iff x.verification in
      let good = outcome_iff success x.outcome in
      (
        (λ h done e. passed.0 (ground (arith, good.1 e))),
        (λ f. elim (Bool-cases (x.status == completed && is_outcome success x.outcome)) [
          | inl both ↦ ground (
            arith,
            passed.1 (f (==_sound x.status completed (ground arith)) (good.0 (ground arith))),
          )
          | inr neither ↦ ground arith
        ]),
      )

  stopped_iff :
      (failure_outcome_needs_stop_reason x ≡ ok tt)
      ↔ ((x.outcome ≡ some failure) ⊎ (x.outcome ≡ some no_progress) → is_some x.stop_reason ≡ true)
  unfolding failure_outcome_needs_stop_reason
  stopped_iff =
      let bad = outcome_iff failure x.outcome in
      let stuck = outcome_iff no_progress x.outcome in
      (
        (λ h either. elim either [
          | inl e ↦ ground (arith, bad.1 e)
          | inr e ↦ ground (arith, stuck.1 e)
        ]),
        (λ f. elim (Bool-cases (is_outcome failure x.outcome)) [
          | inl e ↦ ground (arith, f (inl (bad.0 e)))
          | inr n ↦ elim (Bool-cases (is_outcome no_progress x.outcome)) [
            | inl e ↦ ground (arith, f (inr (stuck.0 e)))
            | inr m ↦ ground arith
          ]
        ]),
      )

  hinted_iff :
      (no_progress_needs_next_step_hint x ≡ ok tt)
      ↔ (x.outcome ≡ some no_progress → is_blank x.next_step_hint ≡ false)
  unfolding no_progress_needs_next_step_hint
  hinted_iff =
      let stuck = outcome_iff no_progress x.outcome in
      (
        (λ h e. ground (arith, stuck.1 e)),
        (λ f. elim (Bool-cases (is_outcome no_progress x.outcome)) [
          | inl e ↦ ground (arith, f (stuck.0 e))
          | inr n ↦ ground arith
        ]),
      )

  delegated_iff :
      (delegation_request_needs_allowed x ≡ ok tt)
      ↔ (x.intent.delegation_allowed ≡ false → All (λ a. is_delegation a ≡ false) x.actions)
  unfolding delegation_request_needs_allowed
  delegated_iff =
      let quiet = any_iff x.actions in
      (
        (λ h e. quiet.0 (ground arith)),
        (λ f. elim (Bool-cases x.intent.delegation_allowed) [
          | inl e ↦ ground arith
          | inr n ↦ ground (arith, quiet.1 (f n))
        ]),
      )

-- What an accepted step says.
pub record IsLawful (x : StepLifecycleRecord) : Type 0 where
  pub named : is_blank x.step_id ≡ false
  pub ended : mem? x.status terminal_statuses ≡ true → is_some x.ended_at ≡ true
  pub verified : x.status ≡ completed → x.outcome ≡ some success → HasPassed x.verification
  pub stopped :
      (x.outcome ≡ some failure) ⊎ (x.outcome ≡ some no_progress) → is_some x.stop_reason ≡ true
  pub hinted : x.outcome ≡ some no_progress → is_blank x.next_step_hint ≡ false
  pub recorded : has_delta x.state_delta ≡ true → has_updates x.artifact_updates ≡ true
  pub delegated : x.intent.delegation_allowed ≡ false → All (λ a. is_delegation a ≡ false) x.actions

-- A step is accepted exactly if its id is not blank, it has an end if its status is terminal, a passed
-- verification if it is completed with success, a reason to stop if it failed or made no progress, a
-- hint in the latter case, a recorded update of an artifact if it changes the state, and asks for
-- delegation only if its intent allows that; then only the id is stripped.
pub check_step_lifecycle_record_iff :
    (x y : StepLifecycleRecord)
    → (check_step_lifecycle_record x ≡ ok y)
      ↔ (IsLawful x × (y ≡ record x { step_id = strip x.step_id }))
unfolding check_step_lifecycle_record terminal_status_requires_ended_at
    state_delta_requires_artifact_updates
check_step_lifecycle_record_iff x y =
    let id = solid_iff (codes "step_id") x.step_id y.step_id in
    let verified = result_iff x in
    let stopped = stopped_iff x in
    let hinted = hinted_iff x in
    let delegated = delegated_iff x in
    (
      (λ h.
          let i = id.0 (ground arith) in
          (
            record {
              named = i.0;
              ended = λ terminal. ground arith;
              verified = verified.0 (ground arith);
              stopped = stopped.0 (ground arith);
              hinted = hinted.0 (ground arith);
              recorded = λ changed. ground arith;
              delegated = delegated.0 (ground arith);
            },
            ground (arith, i.1),
          )),
      (λ (l, same).
          let ended = l.ended in
          let recorded = l.recorded in
          ground (
            arith,
            id.1 (l.named, ap (λ z. z.step_id) same),
            verified.1 l.verified,
            stopped.1 l.stopped,
            hinted.1 l.hinted,
            delegated.1 l.delegated,
          )),
    )
