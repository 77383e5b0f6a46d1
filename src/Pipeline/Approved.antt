-- ===== src/Pipeline/Approved.antt =====
-- Step 1 of a run: where the policy's action leads.
use nova_harness.Prelude.{
  List, Option, [], ap, codes, false, is_blank, none, refl, run_texts, some, strip, sym, ℕ, ◌∙◌,
  ◌∷◌, ◌≡◌,
}
use nova_harness.Driver.{TransitionRecord}
use nova_harness.Machine.{RunState, failed, tool_pending, tool_running}
use nova_harness.Pipeline.Act.{State, add_step}
use nova_harness.Pipeline.Approvals.{allowed_fires, granted_fires, rejected_fires, required_fires}
use nova_harness.Pipeline.Called.{sent, tool_called-solid}
use nova_harness.Pipeline.Execute.{Executor, execute, finish_with}
use nova_harness.Pipeline.Executed.{policy_trace-ok}
use nova_harness.Pipeline.Prepared.{IsRunnable, at_run, first_step}
use nova_harness.Pipeline.Run.{
  approve_allowed, approve_blocked, approve_default, approve_required, policy_trace_of,
}
use nova_harness.Pipeline.Tracing.{IsTraceable}
use nova_harness.Pipeline.Types.{
  Env, ExecutionStepResult, PipelineInput, bare_step, step_end, step_start,
}
use nova_harness.Safety.{SafetyDecision, risk_value}
use nova_harness.Tool.{ApprovalState, not_required, pending}
use nova_harness.Trace.{
  PolicyTrace, StepType, TraceEventStatus, allowed_outcome, approval, blocked, blocked_outcome,
  policy_check, required_approval, skipped, success,
}
use mathlib.Core.Option.{some-injective}

module _ (env : Env) {W : Type 0} (executor : Executor env.V W) (input : PipelineInput) where
  abbrev run_at :
      RunState → List TransitionRecord → W → List (ExecutionStepResult env.V) → State env.V W
  run_at = at_run env executor input

  -- A step with index 1 that can be traced.
  pub record IsSecond (step : ExecutionStepResult env.V) : Type 0 where
    pub second : step.step_index ≡ 1
    pub traceable : IsTraceable step

  bare_step-IsSecond :
      (type : StepType) (status : TraceEventStatus) (hundredths : ℕ) (state : ApprovalState)
      (decision : Option SafetyDecision) (trace : PolicyTrace)
      → IsRunnable env input
      → IsSecond
          (record (bare_step 1 type status hundredths
            (env.now (step_start 1))
            (env.now (step_end 1))) {
              tool_invocation = some (sent env executor input state);
              safety_decision = decision;
              policy_trace = some trace;
            })
  bare_step-IsSecond type status hundredths state decision trace runnable = record {
    second = refl;
    traceable = record {
      ended = λ h. runnable.steps_end 1;
      measured = λ h. refl;
      named = λ invocation e.
          ap (λ i. is_blank i.tool_name) (sym (some-injective _ _ e))
          ∙ tool_called-solid env executor input;
    };
  }

  pub approve_default-goes :
      (history : List TransitionRecord) (world : W)
      → IsRunnable env input
      → (history' : List TransitionRecord) × (step : ExecutionStepResult env.V) × IsSecond step
        × (approve_default env executor input
              (sent env executor input not_required)
              (run_at tool_pending history world (first_step env executor input ∷ []))
            ≡ execute env executor input
                (sent env executor input not_required)
                (run_at tool_running history' world (first_step env executor input ∷ step ∷ [])))
  approve_default-goes history world runnable =
      let trace : PolicyTrace =
        record (policy_trace_of allowed_outcome none (codes "no policy, default allow")) {
          reason = strip (codes "no policy, default allow");
        } in
      let step : ExecutionStepResult env.V =
        record (bare_step 1 policy_check skipped 1 (env.now (step_start 1))
          (env.now (step_end 1))) {
            tool_invocation = some (sent env executor input not_required);
            safety_decision = none;
            policy_trace = some trace;
          } in
      let (history', fired) =
        allowed_fires env executor input history world (first_step env executor input ∷ []) in
      (
        history',
        step,
        bare_step-IsSecond policy_check skipped 1 not_required none trace runnable,
        unfold approve_default add_step in
            rw fired (
              rw (
                policy_trace-ok allowed_outcome none (codes "no policy, default allow")
                  (unfold run_texts in refl))),
      )

  -- A run whose tool needs approval, or not, by the decision of a policy.
  pub approve_allowed-goes :
      (decision : SafetyDecision) (history : List TransitionRecord) (world : W)
      → IsRunnable env input
      → is_blank decision.decision_reason ≡ false
      → (history' : List TransitionRecord) × (step : ExecutionStepResult env.V) × IsSecond step
        × (approve_allowed env executor input
              (sent env executor input not_required)
              decision
              (run_at tool_pending history world (first_step env executor input ∷ []))
            ≡ execute env executor input
                (sent env executor input not_required)
                (run_at tool_running history' world (first_step env executor input ∷ step ∷ [])))
  approve_allowed-goes decision history world runnable reason =
      let trace : PolicyTrace =
        record (policy_trace_of allowed_outcome (some (risk_value decision.risk_level))
          decision.decision_reason) { reason = strip decision.decision_reason } in
      let step : ExecutionStepResult env.V =
        record (bare_step 1 policy_check success 5 (env.now (step_start 1))
          (env.now (step_end 1))) {
            tool_invocation = some (sent env executor input not_required);
            safety_decision = some decision;
            policy_trace = some trace;
          } in
      let (history', fired) =
        allowed_fires env executor input history world (first_step env executor input ∷ []) in
      (
        history',
        step,
        bare_step-IsSecond policy_check success 5 not_required (some decision) trace runnable,
        unfold approve_allowed add_step in
            rw fired (
              rw (
                policy_trace-ok allowed_outcome (some (risk_value decision.risk_level))
                  decision.decision_reason reason)),
      )

  pub approve_required-goes :
      (decision : SafetyDecision) (history : List TransitionRecord) (world : W)
      → IsRunnable env input
      → is_blank decision.decision_reason ≡ false
      → (history' : List TransitionRecord) × (step : ExecutionStepResult env.V) × IsSecond step
        × (approve_required env executor input
              (sent env executor input not_required)
              decision
              (run_at tool_pending history world (first_step env executor input ∷ []))
            ≡ execute env executor input
                (sent env executor input pending)
                (run_at tool_running history' world (first_step env executor input ∷ step ∷ [])))
  approve_required-goes decision history world runnable reason =
      let trace : PolicyTrace =
        record (policy_trace_of required_approval (some (risk_value decision.risk_level))
          decision.decision_reason) { reason = strip decision.decision_reason } in
      let step : ExecutionStepResult env.V =
        record (bare_step 1 approval success 5 (env.now (step_start 1)) (env.now (step_end 1))) {
          tool_invocation = some (sent env executor input pending);
          safety_decision = some decision;
          policy_trace = some trace;
        } in
      let (waiting, fired) =
        required_fires env executor input history world (first_step env executor input ∷ []) in
      let (history', granted) =
        granted_fires env executor input waiting world
          (first_step env executor input ∷ step ∷ []) in
      (
        history',
        step,
        bare_step-IsSecond approval success 5 pending (some decision) trace runnable,
        unfold approve_required add_step in
            rw fired (
              rw
                (policy_trace-ok required_approval (some (risk_value decision.risk_level))
                  decision.decision_reason reason)
                (rw granted)),
      )

  pub approve_blocked-goes :
      (decision : SafetyDecision) (history : List TransitionRecord) (world : W)
      → IsRunnable env input
      → is_blank decision.decision_reason ≡ false
      → (history' : List TransitionRecord) × (step : ExecutionStepResult env.V) × IsSecond step
        × (step.status ≡ blocked)
        × (approve_blocked env executor input
              (sent env executor input not_required)
              decision
              (run_at tool_pending history world (first_step env executor input ∷ []))
            ≡ finish_with env executor input none
                (run_at failed history' world (first_step env executor input ∷ step ∷ [])))
  approve_blocked-goes decision history world runnable reason =
      let trace : PolicyTrace =
        record (policy_trace_of blocked_outcome (some (risk_value decision.risk_level))
          decision.decision_reason) { reason = strip decision.decision_reason } in
      let step : ExecutionStepResult env.V =
        record (bare_step 1 policy_check blocked 5 (env.now (step_start 1))
          (env.now (step_end 1))) {
            tool_invocation = some (sent env executor input not_required);
            safety_decision = some decision;
            policy_trace = some trace;
          } in
      let (waiting, fired) =
        required_fires env executor input history world (first_step env executor input ∷ []) in
      let (history', refused) =
        rejected_fires env executor input waiting world (first_step env executor input ∷ []) in
      (
        history',
        step,
        bare_step-IsSecond policy_check blocked 5 not_required (some decision) trace runnable,
        refl,
        unfold approve_blocked add_step in
            rw fired (
              rw refused (
                rw (
                  policy_trace-ok blocked_outcome (some (risk_value decision.risk_level))
                    decision.decision_reason reason))),
      )
