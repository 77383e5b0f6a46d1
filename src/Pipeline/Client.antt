-- ===== src/Pipeline/Client.antt =====
-- `PipelineExecutor.run` of harness/pipeline.py as a client of the state driver: on every path it does
-- nothing to the driver but trigger events.
-- What a result says of the driver at the end.
use nova_harness.Prelude.{List, Option, Result, Text, arith, err, none, ok, some, true, ◌≡◌}
use nova_harness.Driver.{StateDriver}
use nova_harness.Machine.{
  run_state_value, start_run, succeeded, tool_completed, tool_failed_retryable,
}
use nova_harness.Pipeline.Act.{State}
use nova_harness.Pipeline.Build.{build_context_bundle, build_prompt_assembly, make_safety_decision}
use nova_harness.Pipeline.Driven.{
  IsKept, Left, acted, after_continue, either, given, then_add_step, then_build, then_fire,
  then_try_fire, then_try_fire_all,
}
use nova_harness.Pipeline.Execute.{
  Executor, accept, after_call, call_tool, execute, finish_with, generated, give_up, perform,
  receive, verify,
}
use nova_harness.Pipeline.Outcome.{build_result, is_success}
use nova_harness.Pipeline.Run.{
  approve, approve_allowed, approve_blocked, approve_default, approve_required, decide,
  invocation_of, prepare, run_from_start,
}
use nova_harness.Pipeline.Types.{
  Env, ExecutionStepResult, ModelResponse, PipelineInput, PipelineResult, assembly_failed,
  assembly_purpose, decision_purpose, delivery_failed, safety_failed, tool_failed,
}
use nova_harness.Safety.{ApprovalSafetyPolicy, SafetyDecision}
use nova_harness.Task.{TaskContract}
use nova_harness.Tool.{ToolError, ToolInvocation, ToolResult, check_invocation, check_result}

pub record IsHonest {V : Type 0} (r : PipelineResult V) (d : StateDriver) : Type 0 where
  pub named : r.terminal_state ≡ run_state_value d.current_state_id
  pub achieved : r.success ≡ true → d.current_state_id ≡ succeeded

-- Nothing is said of what a call returns.
abbrev Anything : {A : Type 0} → A → StateDriver → Type 0
Anything a d = Unit

module _ (env : Env) {W : Type 0} (executor : Executor env.V W) (input : PipelineInput)
    (P : StateDriver → Type 0) (kept : IsKept P) where
  abbrev contract : TaskContract
  contract = input.task_contract

  keeps_give_up :
      (invocation : ToolInvocation env.V) (message : Text) (s : State env.V W)
      → P s.driver
      → Left P Anything (give_up env executor input invocation message s)
  unfolding give_up
  keeps_give_up invocation message s h = search (then_build P kept Anything)

  keeps_accept :
      (invocation : ToolInvocation env.V) (r : Result ToolError (ToolResult env.V))
      (s : State env.V W)
      → P s.driver
      → Left P Anything (accept env executor input invocation r s)
  unfolding accept
  keeps_accept invocation (ok result) s h = record { keeps = h; gives = λ a returned. tt }
  keeps_accept invocation (err e) s h = keeps_give_up invocation (env.describe e) s h

  keeps_receive :
      (invocation : ToolInvocation env.V) (r : Result Text ModelResponse) (s : State env.V W)
      → P s.driver
      → Left P Anything (receive env executor input invocation r s)
  unfolding receive
  keeps_receive invocation (err message) s h = keeps_give_up invocation message s h
  keeps_receive invocation (ok response) s h =
      keeps_accept invocation (check_result (generated env executor input invocation response)) s h

  keeps_after_call :
      (s : State env.V W) (out : Result Text (ToolResult env.V) × W)
      → P s.driver
      → Left P Anything (after_call env executor input s out)
  unfolding after_call
  keeps_after_call s (ok result, w) h = record { keeps = h; gives = λ a returned. tt }
  keeps_after_call s (err message, w) h = record { keeps = h; gives = λ a returned. tt }

  keeps_call_tool :
      (invocation : ToolInvocation env.V)
      (generate : Option (List (Text × Text) → W → Result Text ModelResponse × W))
      (s : State env.V W)
      → P s.driver
      → Left P Anything (call_tool env executor input invocation generate s)
  unfolding call_tool
  keeps_call_tool invocation none s h =
      keeps_after_call s (executor.tool_executor invocation s.world) h
  keeps_call_tool invocation (some generate) s h =
      search (then_build P kept Anything, keeps_receive)

  result-IsHonest :
      (run_id task_id : Text) (d : StateDriver) (steps : List (ExecutionStepResult env.V))
      (error : Option Text) (r : PipelineResult env.V)
      → build_result env run_id task_id d.current_state_id steps error ≡ ok r
      → IsHonest r d
  unfolding build_result is_success
  result-IsHonest run_id task_id d steps error r returned = record {
    named = ground arith;
    achieved = λ claimed. ground arith;
  }

  keeps_finish :
      (error : Option Text) (s : State env.V W)
      → P s.driver
      → Left P IsHonest (finish_with env executor input error s)
  unfolding finish_with
  keeps_finish error s h = record {
    keeps = h;
    gives = λ r returned.
        result-IsHonest input.run_id contract.task_id s.driver s.step_results error r returned;
  }

  keeps_verify :
      (result : ToolResult env.V) (s : State env.V W)
      → P s.driver
      → Left P IsHonest (verify env executor input result s)
  unfolding verify
  keeps_verify result s h = search (
    then_build P kept IsHonest,
    then_fire P kept IsHonest,
    then_add_step P kept IsHonest,
    keeps_finish,
  )

  keeps_execute :
      (invocation : ToolInvocation env.V) (s : State env.V W)
      → P s.driver
      → Left P IsHonest (execute env executor input invocation s)
  unfolding execute perform
  keeps_execute invocation s h =
      let (out, s') = call_tool env executor input invocation executor.model_provider s in
      let called = keeps_call_tool invocation executor.model_provider s h in
      after_continue P IsHonest out _ s' called.keeps (λ (tool_ok, result).
        then_add_step P kept IsHonest _ _ s' called.keeps (λ s h.
          either P IsHonest tool_ok _ _ s
            (then_try_fire P kept IsHonest tool_completed _ s h (λ _. keeps_verify result))
            (then_try_fire P kept IsHonest tool_failed_retryable _ s h (λ _. keeps_finish _))))

  keeps_approve_default :
      (invocation : ToolInvocation env.V) (s : State env.V W)
      → P s.driver
      → Left P IsHonest (approve_default env executor input invocation s)
  unfolding approve_default
  keeps_approve_default invocation s h = search (
    then_fire P kept IsHonest,
    then_build P kept IsHonest,
    then_add_step P kept IsHonest,
    keeps_execute,
  )

  module _ (invocation : ToolInvocation env.V) (decision : SafetyDecision) where
    keeps_approve_blocked :
        (s : State env.V W)
        → P s.driver
        → Left P IsHonest (approve_blocked env executor input invocation decision s)
    unfolding approve_blocked
    keeps_approve_blocked s h = search (
      then_fire P kept IsHonest,
      then_build P kept IsHonest,
      then_add_step P kept IsHonest,
      keeps_finish,
    )

    keeps_approve_required :
        (s : State env.V W)
        → P s.driver
        → Left P IsHonest (approve_required env executor input invocation decision s)
    unfolding approve_required
    keeps_approve_required s h = search (
      then_fire P kept IsHonest,
      then_build P kept IsHonest,
      then_add_step P kept IsHonest,
      keeps_execute,
    )

    keeps_approve_allowed :
        (s : State env.V W)
        → P s.driver
        → Left P IsHonest (approve_allowed env executor input invocation decision s)
    unfolding approve_allowed
    keeps_approve_allowed s h = search (
      then_fire P kept IsHonest,
      then_build P kept IsHonest,
      then_add_step P kept IsHonest,
      keeps_execute,
    )

  keeps_decide :
      (invocation : ToolInvocation env.V) (policy : ApprovalSafetyPolicy) (s : State env.V W)
      → P s.driver
      → Left P IsHonest (decide env executor input invocation policy s)
  unfolding decide
  keeps_decide invocation policy s h =
      then_build P kept IsHonest safety_failed
        (make_safety_decision (env.hex decision_purpose) invocation.tool_name policy input.run_id) _
        s h
        (λ decision s h.
          acted P IsHonest decision.safety_action _ _ _ s
            (keeps_approve_blocked invocation decision s h)
            (keeps_approve_required invocation decision s h)
            (keeps_approve_allowed invocation decision s h))

  keeps_approve : (s : State env.V W) → P s.driver → Left P IsHonest (approve env executor input s)
  unfolding approve
  keeps_approve s h =
      then_build P kept IsHonest tool_failed (check_invocation (invocation_of env executor input)) _
        s h
        (λ invocation s h.
          given P IsHonest input.safety_policy _ _ s (keeps_approve_default invocation s h)
            (λ policy. keeps_decide invocation policy s h))

  keeps_prepare : (s : State env.V W) → P s.driver → Left P IsHonest (prepare env executor input s)
  unfolding prepare
  keeps_prepare s h =
      then_build P kept IsHonest delivery_failed (build_context_bundle contract) _ s h
        (λ bundle s h.
          then_build P kept IsHonest assembly_failed
            (build_prompt_assembly (env.hex (assembly_purpose 0)) contract input.run_id) _ s h
            (λ assembly s h. then_add_step P kept IsHonest _ _ s h (λ s h.
              then_try_fire_all P kept IsHonest _ _ s h (λ stopped s h.
                given P IsHonest stopped _ _ s (keeps_approve s h) (λ e. keeps_finish _ s h)))))

  pub keeps_run_from_start :
      (s : State env.V W) → P s.driver → Left P IsHonest (run_from_start env executor input s)
  unfolding run_from_start
  keeps_run_from_start s h =
      then_try_fire P kept IsHonest start_run _ s h (λ stopped s h.
        given P IsHonest stopped _ _ s (keeps_prepare s h) (λ e. keeps_finish _ s h))
