-- ===== src/Pipeline/Generated.antt =====
-- Runs of `PipelineExecutor` with a model provider.
use nova_harness.Prelude.{
  Bool, List, Result, Text, ap, err, false, if◌then◌else◌, is_blank, is_blank-strip, is_nil, length,
  map, ok, refl, required_solid, run_texts, some, strip, strip-strip, true, ◌∙◌, ◌≡◌, ◌≢◌,
}
use nova_harness.Driver.{TransitionRecord}
use nova_harness.Machine.{RunState, tool_running}
use nova_harness.Pipeline.Act.{State}
use nova_harness.Pipeline.Called.{prescribed, tool_called-solid, tool_called-strip}
use nova_harness.Pipeline.Complete.{call, end_error, end_state, run_performed}
use nova_harness.Pipeline.Execute.{
  Executor, accept, call_tool, generated, generation_failed, give_up, perform, receive, role_value,
}
use nova_harness.Pipeline.Prepared.{IsRunnable, at_run, build_prompt_assembly-ok, prompt_messages}
use nova_harness.Pipeline.Run.{run}
use nova_harness.Pipeline.Types.{
  Env, ExecutionStepResult, ModelResponse, PipelineInput, assembly_purpose,
}
use nova_harness.Pipeline.Verified.{Ends}
use nova_harness.Safety.{block}
use nova_harness.Tool.{
  ToolInvocation, ToolResult, check_result, check_result_consistency, result_invocation_id_empty,
  result_tool_name_empty,
}

module _ (env : Env) {W : Type 0} (executor : Executor env.V W) (input : PipelineInput) where
  abbrev run_in :
      RunState → List TransitionRecord → W → List (ExecutionStepResult env.V) → State env.V W
  run_in = at_run env executor input

  abbrev Provider : Type 0
  Provider = List (Text × Text) → W → Result Text ModelResponse × W

  -- What the provider is asked: the role and the content of each message.
  abbrev pub asked_messages : List (Text × Text)
  asked_messages = map (λ m. (role_value m.role, m.content)) (prompt_messages input.task_contract)

  -- An invocation whose texts the check of a result accepts as they are.
  pub record Named (invocation : ToolInvocation env.V) : Type 0 where
    pub name : strip invocation.tool_name ≡ invocation.tool_name
    pub named : is_blank invocation.tool_name ≡ false
    pub id : strip invocation.invocation_id ≡ invocation.invocation_id
    pub identified : is_blank invocation.invocation_id ≡ false

  generated-ok :
      (invocation : ToolInvocation env.V) (response : ModelResponse)
      → Named invocation
      → check_result (generated env executor input invocation response)
        ≡ ok (generated env executor input invocation response)
  unfolding check_result check_result_consistency generated
  generated-ok invocation response h =
      rw (required_solid result_invocation_id_empty invocation.invocation_id h.identified) (
        rw (required_solid result_tool_name_empty invocation.tool_name h.named) (rw (h.name, h.id)))

  generation_failed-ok :
      (invocation : ToolInvocation env.V) (message : Text)
      → Named invocation
      → is_nil message ≡ false
      → check_result (generation_failed env executor input invocation message)
        ≡ ok (generation_failed env executor input invocation message)
  unfolding check_result check_result_consistency generation_failed
  generation_failed-ok invocation message h told =
      rw (required_solid result_invocation_id_empty invocation.invocation_id h.identified) (
        rw (required_solid result_tool_name_empty invocation.tool_name h.named)
          (rw (h.name, h.id, told)))

  -- The result that step 2 makes of what the provider gave.
  abbrev pub provided : ToolInvocation env.V → Result Text ModelResponse → Bool × ToolResult env.V
  provided invocation (ok response) = (true, generated env executor input invocation response)
  provided invocation (err message) =
      (false, generation_failed env executor input invocation message)

  -- A provider that raises gives a text.
  abbrev pub IsTold : Result Text ModelResponse → Type 0
  IsTold (ok response) = Unit
  IsTold (err message) = is_nil message ≡ false

  receive-provided :
      (invocation : ToolInvocation env.V) (response : Result Text ModelResponse) (s : State env.V W)
      → Named invocation
      → IsTold response
      → receive env executor input invocation response s ≡ (ok (provided invocation response), s)
  receive-provided invocation (ok response) s h told =
      unfold receive accept in
      ap (λ r. accept env executor input invocation r s) (generated-ok invocation response h)
  receive-provided invocation (err message) s h told =
      unfold receive give_up in rw (generation_failed-ok invocation message h told)

  perform-provided :
      (provider : Provider) (invocation : ToolInvocation env.V)
      (response : Result Text ModelResponse) (world world' : W)
      → IsRunnable env input
      → Named invocation
      → IsTold response
      → executor.model_provider ≡ some provider
      → provider asked_messages world ≡ (response, world')
      → (history : List TransitionRecord) (steps : List (ExecutionStepResult env.V))
      → perform env executor input invocation (run_in tool_running history world steps)
        ≡ (ok (provided invocation response), run_in tool_running history world' steps)
  perform-provided provider invocation response world world' runnable h told given answered history
        steps =
      let contract = input.task_contract in
      let (assembly, built, said) =
        build_prompt_assembly-ok contract (env.hex (assembly_purpose 1)) input.run_id
          runnable.run_named runnable.goal_stated runnable.request_stated runnable.some_criterion in
      unfold perform in
      ap (λ p. call_tool env executor input invocation p (run_in tool_running history world steps))
        given
      ∙ unfold call_tool in
        rw built (
          rw said (
            rw (ap (λ r. r.0) answered) (
              rw (ap (λ r. r.1) answered) (
                receive-provided invocation response (run_in tool_running history world' steps) h
                  told))))

  pub call-Named : Named (call env executor input)
  call-Named = record {
    name = tool_called-strip env executor input;
    named = tool_called-solid env executor input;
    id = strip-strip _;
    identified = is_blank-strip _ ∙ unfold run_texts in refl;
  }

  -- For a runnable input whose policy does not block the tool, and a model provider that answers the
  -- messages of the prompt or raises with a text that is not empty, the run returns a result: the
  -- answer is verified as the output of a tool, and the exception is a failed result.
  pub run-provided :
      (provider : Provider) (response : Result Text ModelResponse) (world world' : W)
      → IsRunnable env input
      → prescribed env executor input ≢ block
      → executor.model_provider ≡ some provider
      → provider asked_messages world ≡ (response, world')
      → IsTold response
      → let (tool_ok, result) = provided (call env executor input) response in
        (steps : List (ExecutionStepResult env.V)) × (length steps ≡ (if tool_ok then 4 else 3))
        × Ends env executor input
            (run env executor input world)
            (end_state env executor input tool_ok result)
            world'
            steps
            (end_error env executor input tool_ok result)
  run-provided provider response world world' runnable unblocked given answered told =
      let call' = call env executor input in
      run_performed env executor input world world' (provided call' response).0
        (provided call' response).1 runnable unblocked
        (perform-provided provider call' response world world' runnable call-Named told given
          answered)
