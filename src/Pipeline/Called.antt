-- ===== src/Pipeline/Called.antt =====
-- The tool that a run of harness/pipeline.py calls, and the invocation of it.
use nova_harness.Prelude.{
  Text, [], arith, codes, false, if◌then◌else◌, is_blank, is_some, ok, refl, required_solid,
  run_texts, strip, ◌++◌, ◌∷◌, ◌≡◌,
}
use nova_harness.Pipeline.Execute.{Executor}
use nova_harness.Pipeline.Executed.{action_for}
use nova_harness.Pipeline.Prepared.{IsRunnable}
use nova_harness.Pipeline.Run.{invocation_of}
use nova_harness.Pipeline.Types.{Env, PipelineInput, invocation_purpose}
use nova_harness.Safety.{SafetyAction, allow, block, require_approval}
use nova_harness.Tool.{
  ApprovalState, ApprovalState-discrete, ToolInvocation, check_invocation, invocation_id_empty,
  invocation_tool_name_empty, not_required, pending, requested_by_agent_empty,
  requested_by_task_id_empty,
}

module _ (env : Env) {W : Type 0} (executor : Executor env.V W) (input : PipelineInput) where
  abbrev pub tool_called : Text
  tool_called =
      if is_some executor.model_provider then codes "model_generate" else codes "mock_tool"

  -- What the policy prescribes for it.
  abbrev pub prescribed : SafetyAction
  prescribed = action_for input.safety_policy tool_called

  -- The checked invocation, in an approval state.
  abbrev pub sent : ApprovalState → ToolInvocation env.V
  sent state = record {
    invocation_id = strip (codes "inv-" ++ env.hex invocation_purpose);
    tool_name = tool_called;
    arguments = (codes "task", env.of_text input.task_contract.goal) ∷ [];
    requested_by_task_id = strip input.task_contract.task_id;
    requested_by_agent = strip input.model_name;
    approval_state = state;
  }

  -- The approval state in which the invocation reaches the tool.
  abbrev pub state_sent : SafetyAction → ApprovalState
  state_sent allow = not_required
  state_sent require_approval = pending
  state_sent block = not_required

  pub tool_called-solid : is_blank tool_called ≡ false
  unfolding run_texts
  tool_called-solid = ground arith

  pub tool_called-strip : strip tool_called ≡ tool_called
  unfolding run_texts
  tool_called-strip = ground arith

  pub invocation-ok :
      IsRunnable env input
      → check_invocation (invocation_of env executor input) ≡ ok (sent not_required)
  unfolding check_invocation invocation_of
  invocation-ok runnable =
      rw
        (required_solid invocation_id_empty (codes "inv-" ++ env.hex invocation_purpose)
          (unfold run_texts in refl))
        (rw (required_solid invocation_tool_name_empty tool_called tool_called-solid) (
          rw
            (required_solid requested_by_task_id_empty input.task_contract.task_id
              runnable.task_named)
            (rw (required_solid requested_by_agent_empty input.model_name runnable.model_named)
              (rw tool_called-strip (unfold ApprovalState-discrete in refl)))))
