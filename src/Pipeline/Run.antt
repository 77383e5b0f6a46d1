-- ===== src/Pipeline/Run.antt =====
-- `PipelineExecutor.run` of harness/pipeline.py: the start, step 0 and step 1.
-- `StateDriver()`
use nova_harness.Prelude.{
  Option, Result, Text, [], codes, if◌then◌else◌, is_some, none, some, true, ℕ, ◌++◌, ◌∷◌,
}
use nova_harness.Driver.{StateDriver, default_driver, trigger_message}
use nova_harness.Machine.{
  approval_granted, approval_rejected, approval_required, model_response_received, prompt_ready,
  start_run, tool_approved_or_not_required, tool_call_requested,
}
use nova_harness.Machine.Defaults.{default_machine}
use nova_harness.Pipeline.Act.{
  Act, State, add_step, build, fire, try_fire, try_fire_all, ◌>>=◌, ◌>>◌,
}
use nova_harness.Pipeline.Build.{build_context_bundle, build_prompt_assembly, make_safety_decision}
use nova_harness.Pipeline.Execute.{Executor, execute, finish_with}
use nova_harness.Pipeline.Types.{
  Env, ExecutionStepResult, PipelineInput, PipelineResult, RunError, assembly_failed,
  assembly_purpose, bare_step, decision_purpose, delivery_failed, invocation_purpose, safety_failed,
  step_end, step_start, tool_failed, trace_failed,
}
use nova_harness.Safety.{
  ApprovalSafetyPolicy, SafetyDecision, allow, block, require_approval, risk_value,
}
use nova_harness.Task.{TaskContract}
use nova_harness.Tool.{ToolInvocation, check_invocation, not_required, pending}
use nova_harness.Trace.{
  PolicyOutcomeType, PolicyTrace, StepType, TraceEventStatus, allowed_outcome, approval, blocked,
  blocked_outcome, check_policy_trace, policy_check, prompt_assembly, required_approval, skipped,
  success,
}

unfoldable pub fresh_driver : StateDriver
fresh_driver = default_driver (default_machine (codes "harness-v1"))

unfoldable pub policy_trace_of : PolicyOutcomeType → Option Text → Text → PolicyTrace
policy_trace_of outcome risk reason = record {
  policy_name = codes "approval_safety";
  outcome = outcome;
  risk_level = risk;
  reason = reason;
}

module _ (env : Env) {W : Type 0} (executor : Executor env.V W) (input : PipelineInput) where
  abbrev contract : TaskContract
  contract = input.task_contract

  abbrev Action : Type 0
  Action = Act env.V W (PipelineResult env.V)

  -- A step between the clock readings at its start and its end.
  abbrev timed : ℕ → StepType → TraceEventStatus → ℕ → ExecutionStepResult env.V
  timed index type status hundredths =
      bare_step index type status hundredths (env.now (step_start index)) (env.now (step_end index))

  -- Step 1 without a policy, and with the decision of one.
  unfoldable pub approve_default : ToolInvocation env.V → Action
  approve_default invocation = do
    fire tool_approved_or_not_required none
    trace ← build trace_failed (
        check_policy_trace
          (policy_trace_of allowed_outcome none (codes "no policy, default allow")))
    add_step (record (timed 1 policy_check skipped 1) {
      tool_invocation = some invocation;
      policy_trace = some trace;
    })
    execute env executor input invocation

  unfoldable pub approve_blocked : ToolInvocation env.V → SafetyDecision → Action
  approve_blocked invocation decision = do
    fire approval_required none
    fire approval_rejected none
    trace ← build trace_failed (
        check_policy_trace (
          policy_trace_of blocked_outcome (some (risk_value decision.risk_level))
            decision.decision_reason))
    add_step (record (timed 1 policy_check blocked 5) {
      tool_invocation = some invocation;
      safety_decision = some decision;
      policy_trace = some trace;
    })
    finish_with env executor input none

  unfoldable pub approve_required : ToolInvocation env.V → SafetyDecision → Action
  approve_required invocation decision = do
    fire approval_required none
    let asked = record invocation { approval_state = pending }
    trace ← build trace_failed (
        check_policy_trace (
          policy_trace_of required_approval (some (risk_value decision.risk_level))
            decision.decision_reason))
    add_step (record (timed 1 approval success 5) {
      tool_invocation = some asked;
      safety_decision = some decision;
      policy_trace = some trace;
    })
    fire approval_granted (some ((codes "approval_granted_if_required", true) ∷ []))
    execute env executor input asked

  unfoldable pub approve_allowed : ToolInvocation env.V → SafetyDecision → Action
  approve_allowed invocation decision = do
    fire tool_approved_or_not_required none
    trace ← build trace_failed (
        check_policy_trace (
          policy_trace_of allowed_outcome (some (risk_value decision.risk_level))
            decision.decision_reason))
    add_step (record (timed 1 policy_check success 5) {
      tool_invocation = some invocation;
      safety_decision = some decision;
      policy_trace = some trace;
    })
    execute env executor input invocation

  unfoldable pub decide : ToolInvocation env.V → ApprovalSafetyPolicy → Action
  decide invocation policy = do
    decision ←
        build safety_failed
          (make_safety_decision (env.hex decision_purpose) invocation.tool_name policy input.run_id)
    elim decision.safety_action [
      | block ↦ approve_blocked invocation decision
      | require_approval ↦ approve_required invocation decision
      | allow ↦ approve_allowed invocation decision
    ]

  unfoldable pub invocation_of : ToolInvocation env.V
  invocation_of = record {
    invocation_id = codes "inv-" ++ env.hex invocation_purpose;
    tool_name =
        if is_some executor.model_provider then codes "model_generate" else codes "mock_tool";
    arguments = (codes "task", env.of_text contract.goal) ∷ [];
    requested_by_task_id = contract.task_id;
    requested_by_agent = input.model_name;
    approval_state = not_required;
  }

  -- Step 1.
  unfoldable pub approve : Action
  approve = do
    invocation ← build tool_failed (check_invocation invocation_of)
    elim input.safety_policy [
      | none ↦ approve_default invocation
      | some policy ↦ decide invocation policy
    ]

  -- Step 0, and the triggers that lead to step 1.
  unfoldable pub prepare : Action
  prepare = do
    bundle ← build delivery_failed (build_context_bundle contract)
    assembly ←
        build assembly_failed
          (build_prompt_assembly (env.hex (assembly_purpose 0)) contract input.run_id)
    add_step (timed 0 prompt_assembly success 10)
    stopped ← try_fire_all (prompt_ready ∷ model_response_received ∷ tool_call_requested ∷ [])
    elim stopped [
      | none ↦ approve
      | some e ↦ finish_with env executor input (some (trigger_message e))
    ]

  unfoldable pub run_from_start : Action
  run_from_start = do
    stopped ← try_fire start_run
    elim stopped [
      | none ↦ prepare
      | some e ↦ finish_with env executor input (some (trigger_message e))
    ]

  -- `run(input)`: the result or what escapes, and the driver, the world and the steps at the end.
  unfoldable pub run : W → Result RunError (PipelineResult env.V) × State env.V W
  run world = run_from_start (record {
    driver = elim input.state_driver [ none ↦ fresh_driver | some driver ↦ driver ];
    world = world;
    step_results = [];
  })
