-- ===== src/Pipeline/Complete.antt =====
-- Whole runs of `PipelineExecutor.run` of harness/pipeline.py, from the input to the result.
use nova_harness.Prelude.{
  Bool, Bool-cases, List, Option, Text, [], ap, codes, false, has_text, if◌then◌else◌, inl, inr,
  is_blank, length, nat_eq, none, ok, refl, some, subst, sym, text_eq, true, ◌&&◌, ◌++◌, ◌==◌, ◌∙◌,
  ◌∷◌, ◌≡◌, ◌≢◌,
}
use nova_harness.Driver.{TransitionRecord}
use nova_harness.Machine.{
  RunState, RunState-discrete, failed, key_eq, retry_pending, run_event_eq, run_state_eq,
  tool_running,
}
use nova_harness.Pipeline.Act.{State}
use nova_harness.Pipeline.Approved.{IsSecond}
use nova_harness.Pipeline.Called.{prescribed, sent, state_sent, tool_called-solid}
use nova_harness.Pipeline.Execute.{Executor, after_call, call_tool, execute, perform}
use nova_harness.Pipeline.Executed.{execute_failed, execute_succeeded, tool_step}
use nova_harness.Pipeline.Leads.{Leads, leads_to_tool, run-Leads}
use nova_harness.Pipeline.Outcome.{is_success, text_or}
use nova_harness.Pipeline.Prepared.{IsRunnable, at_run, first_step}
use nova_harness.Pipeline.Run.{run}
use nova_harness.Pipeline.Tracing.{IsTraceable}
use nova_harness.Pipeline.Types.{Env, ExecutionStepResult, PipelineInput, PipelineResult}
use nova_harness.Pipeline.Verified.{
  Ends, check_step_of, criteria_pass, final_state, finish_with-Ends, verify_finishes,
}
use nova_harness.Safety.{block, resource_type_eq, safety_action_eq}
use nova_harness.Tool.{
  ApprovalState, ToolInvocation, ToolResult, approval_state_eq, tool_status_eq, tool_success,
}
use nova_harness.Trace.{VerificationTrace, blocked, policy_outcome_type_eq, trace_event_status_eq}
use mathlib.Core.Option.{some-injective}

module _ (env : Env) {W : Type 0} (executor : Executor env.V W) (input : PipelineInput) where
  abbrev called : ApprovalState → ToolInvocation env.V
  called = sent env executor input

  abbrev first : ExecutionStepResult env.V
  first = first_step env executor input

  abbrev run_in :
      RunState → List TransitionRecord → W → List (ExecutionStepResult env.V) → State env.V W
  run_in = at_run env executor input

  first-IsTraceable : IsRunnable env input → IsTraceable first
  first-IsTraceable runnable = record {
    ended = λ h. runnable.steps_end 0;
    measured = λ h. refl;
    named = λ invocation e. cc;
  }

  -- A run of a runnable input whose policy blocks the tool leaves the world as it was, ends in `failed`
  -- with no error, and reports a second and last step that was blocked.
  pub run_blocked :
      (world : W)
      → IsRunnable env input
      → prescribed env executor input ≡ block
      → (step : ExecutionStepResult env.V) × (step.status ≡ blocked)
        × Ends env executor input
            (run env executor input world)
            failed
            world
            (first ∷ step ∷ [])
            none
  run_blocked world runnable blocks =
      let (history, reached, leads) = run-Leads env executor input world runnable in
      let (history', step, second, stopped, goes) =
        subst (λ a. Leads env executor input a history world) blocks leads in
      (
        step,
        stopped,
        subst (λ outcome. Ends env executor input outcome failed world (first ∷ step ∷ []) none)
            (sym (reached ∙ goes))
            (finish_with-Ends env executor input failed history' world (first ∷ step ∷ []) none
              runnable (λ e. cc) (refl, (second.second, tt))
              (first-IsTraceable runnable, (second.traceable, tt))),
      )

  -- The invocation that reaches the tool.
  abbrev pub call : ToolInvocation env.V
  call = called (state_sent env executor input (prescribed env executor input))

  -- A runnable input whose policy does not block the tool comes to the tool.
  pub run_reaches_tool :
      (world : W)
      → IsRunnable env input
      → prescribed env executor input ≢ block
      → (history : List TransitionRecord) × (step : ExecutionStepResult env.V) × IsSecond env
          executor input step
        × (run env executor input world
            ≡ execute env executor input call
                (run_in tool_running history world (first ∷ step ∷ [])))
  run_reaches_tool world runnable unblocked =
      let (history, reached, leads) = run-Leads env executor input world runnable in
      let (history', step, second, goes) =
        leads_to_tool env executor input (prescribed env executor input) history world unblocked
          leads in
      (history', step, second, reached ∙ goes)

  -- Where a run ends after the tool, and with which error.
  abbrev pub end_state : Bool → ToolResult env.V → RunState
  end_state tool_ok result =
      if tool_ok
      then final_state env executor input (criteria_pass env executor input result)
      else retry_pending

  abbrev pub end_error : Bool → ToolResult env.V → Option Text
  end_error tool_ok result =
      if tool_ok then none else some (text_or result.error (codes "execution failed"))

  tool_step-IsTraceable :
      (tool_ok : Bool) (result : ToolResult env.V)
      → IsRunnable env input
      → IsTraceable (tool_step env executor input tool_ok call result)
  tool_step-IsTraceable tool_ok result runnable = record {
    ended = λ h. runnable.steps_end 2;
    measured = λ h. refl;
    named = λ invocation e.
        ap (λ i. is_blank i.tool_name) (sym (some-injective _ _ e))
        ∙ tool_called-solid env executor input;
  }

  check_step-IsTraceable :
      (passes : Bool) (trace : VerificationTrace)
      → IsRunnable env input
      → IsTraceable (check_step_of env executor input passes trace)
  check_step-IsTraceable passes trace runnable = record {
    ended = λ h. runnable.steps_end 3;
    measured = λ h. refl;
    named = λ invocation e. cc;
  }

  -- A run whose tool gives a result ends with one: three steps if the tool failed, and otherwise four.
  pub run_performed :
      (world world' : W) (tool_ok : Bool) (result : ToolResult env.V)
      → IsRunnable env input
      → prescribed env executor input ≢ block
      → ((history : List TransitionRecord) (steps : List (ExecutionStepResult env.V))
          → perform env executor input call (run_in tool_running history world steps)
            ≡ (ok (tool_ok, result), run_in tool_running history world' steps))
      → (steps : List (ExecutionStepResult env.V)) × (length steps ≡ (if tool_ok then 4 else 3))
        × Ends env executor input
            (run env executor input world)
            (end_state tool_ok result)
            world'
            steps
            (end_error tool_ok result)
  run_performed world world' true result runnable unblocked performs =
      let (history, step, second, reached) = run_reaches_tool world runnable unblocked in
      let before : List (ExecutionStepResult env.V) = first ∷ step ∷ [] in
      let (history', executed) =
        execute_succeeded env executor input call result history world world' before
          (performs history before) in
      let passes : Bool = criteria_pass env executor input result in
      let (history'', trace, verified) =
        verify_finishes env executor input result history' world'
          (before ++ tool_step env executor input true call result ∷ []) runnable in
      let steps : List (ExecutionStepResult env.V) =
        first
        ∷ step
        ∷ tool_step env executor input true call result
        ∷ check_step_of env executor input passes trace
        ∷ [] in
      (
        steps,
        refl,
        subst (λ outcome. Ends env executor input outcome (end_state true result) world' steps none)
            (sym (reached ∙ executed ∙ verified))
            (finish_with-Ends env executor input (end_state true result) history'' world' steps none
              runnable (λ e. cc) (refl, (second.second, (refl, (refl, tt))))
              (
                first-IsTraceable runnable,
                (
                  second.traceable,
                  (
                    tool_step-IsTraceable true result runnable,
                    (check_step-IsTraceable passes trace runnable, tt),
                  ),
                ),
              )),
      )
  run_performed world world' false result runnable unblocked performs =
      let (history, step, second, reached) = run_reaches_tool world runnable unblocked in
      let before : List (ExecutionStepResult env.V) = first ∷ step ∷ [] in
      let (history', executed) =
        execute_failed env executor input call result history world world' before
          (performs history before) in
      let steps : List (ExecutionStepResult env.V) =
        first ∷ step ∷ tool_step env executor input false call result ∷ [] in
      (
        steps,
        refl,
        subst
            (λ outcome.
              Ends env executor input outcome retry_pending world' steps (end_error false result))
            (sym (reached ∙ executed))
            (finish_with-Ends env executor input retry_pending history' world' steps
              (end_error false result) runnable (λ e. cc) (refl, (second.second, (refl, tt)))
              (
                first-IsTraceable runnable,
                (second.traceable, (tool_step-IsTraceable false result runnable, tt)),
              )),
      )

  -- The tool executor of the caller.
  call_custom :
      (invocation : ToolInvocation env.V) (world world' : W) (result : ToolResult env.V)
      → executor.tool_executor invocation world ≡ (ok result, world')
      → (history : List TransitionRecord) (steps : List (ExecutionStepResult env.V))
      → call_tool env executor input invocation none (run_in tool_running history world steps)
        ≡ (ok (result.status == tool_success, result), run_in tool_running history world' steps)
  unfolding call_tool after_call
  call_custom invocation world world' result returned history steps =
      ap (after_call env executor input (run_in tool_running history world steps)) returned

  perform_custom :
      (invocation : ToolInvocation env.V) (world world' : W) (result : ToolResult env.V)
      → executor.model_provider ≡ none
      → executor.tool_executor invocation world ≡ (ok result, world')
      → (history : List TransitionRecord) (steps : List (ExecutionStepResult env.V))
      → perform env executor input invocation (run_in tool_running history world steps)
        ≡ (ok (result.status == tool_success, result), run_in tool_running history world' steps)
  unfolding perform
  perform_custom invocation world world' result mock returned history steps =
      ap (λ p. call_tool env executor input invocation p (run_in tool_running history world steps))
        mock
      ∙ call_custom invocation world world' result returned history steps

  pub run_outcome :
      (world world' : W) (result : ToolResult env.V)
      → IsRunnable env input
      → prescribed env executor input ≢ block
      → executor.model_provider ≡ none
      → executor.tool_executor call world ≡ (ok result, world')
      → let tool_ok = result.status == tool_success in
        (steps : List (ExecutionStepResult env.V)) × (length steps ≡ (if tool_ok then 4 else 3))
        × Ends env executor input
            (run env executor input world)
            (end_state tool_ok result)
            world'
            steps
            (end_error tool_ok result)
  run_outcome world world' result runnable unblocked mock returned =
      run_performed world world' (result.status == tool_success) result runnable unblocked
        (perform_custom call world world' result mock returned)

  pub ends_well :
      (tool_ok : Bool) (result : ToolResult env.V)
      → is_success (end_state tool_ok result) (end_error tool_ok result)
        ≡ tool_ok && criteria_pass env executor input result
  unfolding is_success has_text RunState-discrete
  ends_well true result = elim (Bool-cases (criteria_pass env executor input result)) [
    | inl passes ↦ rw passes
    | inr fails ↦ rw fails
  ]
  ends_well false result = refl

  -- For a runnable input whose policy does not block the tool, and a tool executor of the caller that
  -- returns a result for the invocation, the run returns, and it succeeds exactly if the status of
  -- the result is success and its output meets all criteria of the contract.
  pub run_success :
      (world world' : W) (result : ToolResult env.V)
      → IsRunnable env input
      → prescribed env executor input ≢ block
      → executor.model_provider ≡ none
      → executor.tool_executor call world ≡ (ok result, world')
      → (r : PipelineResult env.V) × ((run env executor input world).0 ≡ ok r)
        × (r.success ≡ (result.status == tool_success && criteria_pass env executor input result))
  run_success world world' result runnable unblocked mock returned =
      let (steps, count, ends) = run_outcome world world' result runnable unblocked mock returned in
      (
        ends.result,
        ends.returned,
        ends.reports.succeeds ∙ ends_well (result.status == tool_success) result,
      )
