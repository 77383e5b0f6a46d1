-- ===== src/Pipeline/Executed.antt =====
-- Steps 1 and 2 of a run: where the safety decision leads, and what the tool's result leads to.
use nova_harness.Prelude.{
  Bool, List, Option, Text, [], codes, false, if◌then◌else◌, is_blank, is_blank-strip, nat_eq, none,
  ok, refl, required, required_solid, run_texts, some, strip, text_eq, true, ◌&&◌, ◌++◌, ◌==◌, ◌∙◌,
  ◌∷◌, ◌≡◌,
}
use nova_harness.Driver.{TransitionRecord}
use nova_harness.Driver.Default.{guard_env}
use nova_harness.Machine.{
  RunState, key_eq, retry_pending, run_event_eq, run_state_eq, tool_completed,
  tool_failed_retryable, tool_running, verifying,
}
use nova_harness.Pipeline.Act.{State, add_step, try_fire}
use nova_harness.Pipeline.Build.{decision_for, rule_for}
use nova_harness.Pipeline.Execute.{Executor, execute, finish_with, perform, verify}
use nova_harness.Pipeline.Outcome.{text_or}
use nova_harness.Pipeline.Prepared.{at_run}
use nova_harness.Pipeline.Run.{policy_trace_of}
use nova_harness.Pipeline.Types.{
  Env, ExecutionStepResult, PipelineInput, bare_step, step_end, step_start,
}
use nova_harness.Safety.{
  ActionRiskRule, ApprovalSafetyPolicy, SafetyAction, SafetyAction-discrete, SafetyDecision, allow,
  block, check_decision, decision_text_empty, resource_type_eq, safety_action_eq,
}
use nova_harness.Tool.{ToolInvocation, ToolResult, approval_state_eq, tool_status_eq}
use nova_harness.Trace.{
  PolicyOutcomeType, check_policy_trace, failure, policy_outcome_type_eq, policy_reason_empty,
  success, tool_execution, trace_event_status_eq,
}

-- The action that a policy prescribes for a tool: that of the first rule for it, or `allow`.
abbrev pub action_of_rule : Option ActionRiskRule → SafetyAction
action_of_rule none = allow
action_of_rule (some rule) = rule.safety_action

abbrev pub action_for : Option ApprovalSafetyPolicy → Text → SafetyAction
action_for none tool = allow
action_for (some policy) tool = action_of_rule (rule_for tool policy.rules)

and_false : (b : Bool) → (b && false) ≡ false
and_false true = refl
and_false false = refl

pub decision-ok :
    (digits tool run_id : Text) (found : Option ActionRiskRule)
    → is_blank tool ≡ false
    → is_blank run_id ≡ false
    → (decision : SafetyDecision) × (check_decision (decision_for digits tool run_id found)
        ≡ ok decision)
      × (decision.safety_action ≡ action_of_rule found)
      × (is_blank decision.decision_reason ≡ false)
unfolding check_decision decision_for
decision-ok digits tool run_id none named run_named = (
  record (decision_for digits tool run_id none) {
    decision_id = strip (codes "dec-" ++ digits);
    run_id = strip run_id;
    action_name = strip tool;
  },
  rw (required_solid decision_text_empty (codes "dec-" ++ digits) (unfold run_texts in refl)) (
      rw (required_solid decision_text_empty run_id run_named) (
        rw (required_solid decision_text_empty tool named)
          (unfold required run_texts SafetyAction-discrete in refl))),
  refl,
  (unfold run_texts in refl),
)
decision-ok digits tool run_id (some rule) named run_named =
    let reason : Text = codes "matched rule: " ++ rule.rationale in
    let solid : is_blank reason ≡ false = unfold run_texts in refl in
    (
      record (decision_for digits tool run_id (some rule)) {
        decision_id = strip (codes "dec-" ++ digits);
        run_id = strip run_id;
        action_name = strip tool;
        decision_reason = strip reason;
      },
      rw (required_solid decision_text_empty (codes "dec-" ++ digits) (unfold run_texts in refl)) (
          rw (required_solid decision_text_empty run_id run_named) (
            rw (required_solid decision_text_empty tool named) (
              rw (required_solid decision_text_empty reason solid)
                (rw (and_false (rule.safety_action == block)))))),
      refl,
      is_blank-strip reason ∙ solid,
    )

pub policy_trace-ok :
    (outcome : PolicyOutcomeType) (risk : Option Text) (reason : Text)
    → is_blank reason ≡ false
    → check_policy_trace (policy_trace_of outcome risk reason)
      ≡ ok (record (policy_trace_of outcome risk reason) { reason = strip reason })
unfolding check_policy_trace policy_trace_of
policy_trace-ok outcome risk reason solid =
    rw (required_solid policy_reason_empty reason solid) (unfold required run_texts in refl)

module _ (env : Env) {W : Type 0} (executor : Executor env.V W) (input : PipelineInput) where
  abbrev run_at :
      RunState → List TransitionRecord → W → List (ExecutionStepResult env.V) → State env.V W
  run_at = at_run env executor input

  -- The tool step, with the result.
  abbrev pub tool_step : Bool → ToolInvocation env.V → ToolResult env.V → ExecutionStepResult env.V
  tool_step tool_ok invocation result =
      record (bare_step 2 tool_execution (if tool_ok then success else failure) 20
        (env.now (step_start 2)) (env.now (step_end 2))) {
          tool_invocation = some invocation;
          tool_result = some result;
          error = if tool_ok then none else result.error;
        }

  -- Where the tool leaves the driver.
  abbrev pub state_after_tool : Bool → RunState
  state_after_tool tool_ok = if tool_ok then verifying else retry_pending

  tool_fires :
      (tool_ok : Bool) (history : List TransitionRecord) (world : W)
      (steps : List (ExecutionStepResult env.V))
      → (history' : List TransitionRecord) × (try_fire
            (if tool_ok then tool_completed else tool_failed_retryable)
            (run_at tool_running history world steps)
          ≡ (ok none, run_at (state_after_tool tool_ok) history' world steps))
  unfolding try_fire guard_env
  tool_fires true history world steps = (_, refl)
  tool_fires false history world steps = (_, refl)

  pub execute_succeeded :
      (invocation : ToolInvocation env.V) (result : ToolResult env.V)
      (history : List TransitionRecord) (world world' : W)
      (steps : List (ExecutionStepResult env.V))
      → perform env executor input invocation (run_at tool_running history world steps)
        ≡ (ok (true, result), run_at tool_running history world' steps)
      → (history' : List TransitionRecord) × (execute env executor input invocation
            (run_at tool_running history world steps)
          ≡ verify env executor input result
              (run_at verifying history' world' (steps ++ tool_step true invocation result ∷ [])))
  execute_succeeded invocation result history world world' steps e =
      let (history', fired) =
        tool_fires true history world' (steps ++ tool_step true invocation result ∷ []) in
      (history', unfold execute add_step in rw e (rw fired))

  pub execute_failed :
      (invocation : ToolInvocation env.V) (result : ToolResult env.V)
      (history : List TransitionRecord) (world world' : W)
      (steps : List (ExecutionStepResult env.V))
      → perform env executor input invocation (run_at tool_running history world steps)
        ≡ (ok (false, result), run_at tool_running history world' steps)
      → (history' : List TransitionRecord) × (execute env executor input invocation
            (run_at tool_running history world steps)
          ≡ finish_with env executor input
              (some (text_or result.error (codes "execution failed")))
              (run_at retry_pending history' world'
                (steps ++ tool_step false invocation result ∷ [])))
  execute_failed invocation result history world world' steps e =
      let (history', fired) =
        tool_fires false history world' (steps ++ tool_step false invocation result ∷ []) in
      (history', unfold execute add_step in rw e (rw fired))
