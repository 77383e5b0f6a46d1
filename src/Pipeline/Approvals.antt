-- ===== src/Pipeline/Approvals.antt =====
-- The triggers of step 1 of a run, on the default machine.
use nova_harness.Prelude.{
  ==_refl, List, Text, [], ap, codes, err, lookup, nat_eq, none, ok, refl, some, text_eq, true,
  ◌++◌, ◌∷◌, ◌≡◌,
}
use nova_harness.Driver.{TransitionRecord, allowed_record, given_or_empty}
use nova_harness.Driver.Default.{approval_moves, at_state, guard_env}
use nova_harness.Machine.{
  RunState, approval_granted, approval_rejected, approval_required, awaiting_approval, failed,
  key_eq, run_event_eq, run_state_eq, tool_approved_or_not_required, tool_pending, tool_running,
}
use nova_harness.Pipeline.Act.{State, fire}
use nova_harness.Pipeline.Execute.{Executor}
use nova_harness.Pipeline.Prepared.{at_run}
use nova_harness.Pipeline.Types.{Env, ExecutionStepResult, PipelineInput, trigger_failed}

module _ (env : Env) {W : Type 0} (executor : Executor env.V W) (input : PipelineInput) where
  abbrev run_at :
      RunState → List TransitionRecord → W → List (ExecutionStepResult env.V) → State env.V W
  run_at = at_run env executor input

  pub allowed_fires :
      (history : List TransitionRecord) (world : W) (steps : List (ExecutionStepResult env.V))
      → (history' : List TransitionRecord) × (fire tool_approved_or_not_required none
            (run_at tool_pending history world steps)
          ≡ (ok tt, run_at tool_running history' world steps))
  unfolding fire guard_env
  allowed_fires history world steps = (_, refl)

  pub required_fires :
      (history : List TransitionRecord) (world : W) (steps : List (ExecutionStepResult env.V))
      → (history' : List TransitionRecord) × (fire approval_required none
            (run_at tool_pending history world steps)
          ≡ (ok tt, run_at awaiting_approval history' world steps))
  unfolding fire guard_env
  required_fires history world steps = (_, refl)

  abbrev gate : Text
  gate = codes "approval_granted_if_required"

  pub granted_fires :
      (history : List TransitionRecord) (world : W) (steps : List (ExecutionStepResult env.V))
      → (history' : List TransitionRecord) × (fire approval_granted
            (some ((gate, true) ∷ []))
            (run_at awaiting_approval history world steps)
          ≡ (ok tt, run_at tool_running history' world steps))
  granted_fires history world steps =
      let found : lookup gate ((gate, true) ∷ []) ≡ some true =
        unfold lookup in rw (==_refl gate) in
      (
        history
            ++ allowed_record (at_state (codes "harness-v1") awaiting_approval history)
                approval_granted tool_running (given_or_empty (some ((gate, true) ∷ [])))
              ∷ [],
        unfold fire in
            ap
              (λ (r, d). elim r [
                | ok _ ↦
                    (ok tt, record (run_at awaiting_approval history world steps) { driver = d })
                | err e ↦ (
                  err (trigger_failed e),
                  record (run_at awaiting_approval history world steps) { driver = d },
                )
              ])
              (approval_moves (codes "harness-v1") history (some ((gate, true) ∷ []))
                (λ h. unfold given_or_empty in cc (found, h))),
      )

  pub rejected_fires :
      (history : List TransitionRecord) (world : W) (steps : List (ExecutionStepResult env.V))
      → (history' : List TransitionRecord) × (fire approval_rejected none
            (run_at awaiting_approval history world steps)
          ≡ (ok tt, run_at failed history' world steps))
  unfolding fire guard_env
  rejected_fires history world steps = (_, refl)
