-- ===== src/Pipeline/Verified.antt =====
-- The end of a run: step 3 and the result that it leads to.
use nova_harness.Prelude.{
  All, Bool, List, Option, Result, Text, [], all?, ap, false, if◌then◌else◌, is_blank, length,
  nat_eq, none, ok, refl, required, required_solid, run_texts, some, strip, text_eq, true, ℕ, ◌&&◌,
  ◌++◌, ◌==◌, ◌∷◌, ◌≡◌, ◌≢◌,
}
use nova_harness.Driver.{TransitionRecord}
use nova_harness.Driver.Default.{guard_env}
use nova_harness.Machine.{
  RunState, failed, key_eq, run_event_eq, run_state_eq, succeeded, verification_failed_terminal,
  verification_passed, verifying,
}
use nova_harness.Pipeline.Act.{State, add_step, fire}
use nova_harness.Pipeline.Build.{each, target_of}
use nova_harness.Pipeline.Criteria.{check_criterion, criterion_trace, judge}
use nova_harness.Pipeline.Execute.{Executor, all_checks_trace, finish_with, output_text, verify}
use nova_harness.Pipeline.Prepared.{IsRunnable, at_run}
use nova_harness.Pipeline.Tracing.{IsTraceable, Numbered, Reports, build_result-Reports}
use nova_harness.Pipeline.Types.{
  Env, ExecutionStepResult, PipelineInput, PipelineResult, RunError, bare_step, step_end,
  step_start,
}
use nova_harness.Task.{SuccessCriterion, approval_trigger_eq, tool_name_eq, verification_kind_eq}
use nova_harness.Tool.{ToolResult, approval_state_eq, tool_status_eq}
use nova_harness.Trace.{
  VerificationTrace, check_name_empty, check_verification_trace, failure, policy_outcome_type_eq,
  success, trace_event_status_eq, verification,
}

module _ (env : Env) {W : Type 0} (executor : Executor env.V W) (input : PipelineInput) where
  -- The run returns a result that reports the state, the steps and the error, and leaves the world.
  pub record Ends (outcome : Result RunError (PipelineResult env.V) × State env.V W)
      (state : RunState) (world : W) (steps : List (ExecutionStepResult env.V))
      (error : Option Text) : Type 0 where
    pub result : PipelineResult env.V
    pub returned : outcome.0 ≡ ok result
    pub reports : Reports env input.run_id input.task_contract.task_id state steps error result
    pub leaves : outcome.1.world ≡ world
    pub stops_in : outcome.1.driver.current_state_id ≡ state

  -- Whether the output meets all criteria of the contract.
  abbrev pub criteria_pass : ToolResult env.V → Bool
  criteria_pass result =
      all? (λ c. (judge env.lower c.kind (strip (output_text env result))).0 == success)
        input.task_contract.success_criteria

  pub finish_with-Ends :
      (state : RunState) (history : List TransitionRecord) (world : W)
      (steps : List (ExecutionStepResult env.V)) (error : Option Text)
      → IsRunnable env input
      → steps ≢ []
      → Numbered 0 steps
      → All IsTraceable steps
      → Ends
          (finish_with env executor input error
            (at_run env executor input state history world steps))
          state
          world
          steps
          error
  unfolding finish_with
  finish_with-Ends state history world steps error runnable some_step numbered traceable =
      let (r, e, reports) =
        build_result-Reports env input.run_id input.task_contract.task_id state steps error
          runnable.run_named runnable.task_named runnable.ends some_step numbered traceable in
      record { result = r; returned = e; reports = reports; leaves = refl; stops_in = refl }

  criterion_traces :
      (content : Text) (criteria : List SuccessCriterion)
      → All (λ c. is_blank (target_of c) ≡ false) criteria
      → (traces : List VerificationTrace) × (each
            (λ c. check_criterion env.lower c content)
            criteria
          ≡ ok traces)
        × (all? (λ v. v.status == success) traces
            ≡ all? (λ c. (judge env.lower c.kind (strip content)).0 == success) criteria)
  unfolding each check_criterion check_verification_trace criterion_trace all?
  criterion_traces content [] h = ([], refl, refl)
  criterion_traces content (c ∷ criteria) h =
      let (traces, e, same) = criterion_traces content criteria h.1 in
      (
        record (criterion_trace env.lower c content) { check_name = strip (target_of c) } ∷ traces,
        rw (required_solid check_name_empty (target_of c) h.0) (rw e),
        ap (λ b. (judge env.lower c.kind (strip content)).0 == success && b) same,
      )

  abbrev pub check_step_of : Bool → VerificationTrace → ExecutionStepResult env.V
  check_step_of passes trace =
      record (bare_step 3 verification (if passes then success else failure) 15
        (env.now (step_start 3)) (env.now (step_end 3))) { verification_trace = some trace }

  abbrev pub final_state : Bool → RunState
  final_state passes = if passes then succeeded else failed

  all_checks-ok :
      (b : Bool) (n : ℕ)
      → check_verification_trace (all_checks_trace b n) ≡ ok (all_checks_trace b n)
  unfolding check_verification_trace all_checks_trace required run_texts
  all_checks-ok b n = refl

  verdict_fires :
      (b : Bool) (history : List TransitionRecord) (world : W)
      (steps : List (ExecutionStepResult env.V))
      → (history' : List TransitionRecord) × (fire
            (if b then verification_passed else verification_failed_terminal)
            none
            (at_run env executor input verifying history world steps)
          ≡ (ok tt, at_run env executor input (final_state b) history' world steps))
  unfolding fire guard_env
  verdict_fires true history world steps = (_, refl)
  verdict_fires false history world steps = (_, refl)

  -- Step 3 leads to the result, by the trigger that the criteria call for.
  pub verify_finishes :
      (result : ToolResult env.V) (history : List TransitionRecord) (world : W)
      (steps : List (ExecutionStepResult env.V))
      → IsRunnable env input
      → (history' : List TransitionRecord) × (trace : VerificationTrace) × (verify env executor
            input result
            (at_run env executor input verifying history world steps)
          ≡ finish_with env executor input none (
              at_run env executor input
                (final_state (criteria_pass result))
                history'
                world
                (steps ++ check_step_of (criteria_pass result) trace ∷ [])))
  unfolding verify
  verify_finishes result history world steps runnable =
      let (traces, e, same) =
        criterion_traces (output_text env result) input.task_contract.success_criteria
          runnable.targets_named in
      let (history', fired) = verdict_fires (criteria_pass result) history world steps in
      (
        history',
        all_checks_trace (criteria_pass result) (length traces),
        rw e (
            rw same (
              rw fired (
                rw (all_checks-ok (criteria_pass result) (length traces))
                  (unfold add_step in refl)))),
      )
