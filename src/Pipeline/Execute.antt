-- ===== src/Pipeline/Execute.antt =====
-- Steps 2 and 3 of `PipelineExecutor.run` of harness/pipeline.py: the call of the tool or of the model,
-- and the verification. Each may raise, with the text of its exception, and may change the world.
use nova_harness.Prelude.{
  Bool, List, Option, Result, Text, [], all?, codes, decimal, err, false, if◌then◌else◌, length,
  map, nat_eq, none, ok, some, text_eq, true, ℕ, ◌++◌, ◌==◌, ◌∷◌,
}
use nova_harness.Assembly.{MessageRole, assistant_role, system_role, user_role}
use nova_harness.Machine.{
  key_eq, run_event_eq, run_state_eq, tool_completed, tool_failed_retryable,
  verification_failed_terminal, verification_passed,
}
use nova_harness.Pipeline.Act.{Act, State, add_step, build, fire, return, try_fire, ◌>>=◌, ◌>>◌}
use nova_harness.Pipeline.Build.{build_prompt_assembly, each}
use nova_harness.Pipeline.Criteria.{check_criterion}
use nova_harness.Pipeline.Outcome.{build_result, text_or}
use nova_harness.Pipeline.Types.{
  Env, ExecutionStepResult, ModelResponse, PipelineInput, PipelineResult, RunError, assembly_failed,
  assembly_purpose, bare_step, executor_raised, result_end, step_end, step_start, tool_end,
  tool_failed, tool_start, trace_failed,
}
use nova_harness.Task.{TaskContract, approval_trigger_eq, tool_name_eq, verification_kind_eq}
use nova_harness.Tool.{
  ToolError, ToolInvocation, ToolResult, approval_state_eq, check_result, tool_error,
  tool_status_eq, tool_success,
}
use nova_harness.Trace.{
  StepType, TraceEventStatus, VerificationTrace, check_verification_trace, failure,
  policy_outcome_type_eq, success, tool_execution, trace_event_status_eq, verification,
}

pub record Executor (V W : Type 0) : Type 0 where
  pub tool_executor : ToolInvocation V → W → Result Text (ToolResult V) × W
  pub model_provider : Option (List (Text × Text) → W → Result Text ModelResponse × W)

-- `_default_tool_executor`
unfoldable pub default_result : (env : Env) → ToolInvocation env.V → ToolResult env.V
default_result env invocation = record {
  invocation_id = invocation.invocation_id;
  tool_name = invocation.tool_name;
  status = tool_success;
  output = some (
      (
        codes "content",
        env.of_text (
            codes
              "def add(a, b):\n    return a + b\n\n\ndef test_add():\n    assert add(1, 2) == 3\n    assert add(-1, 1) == 0\n"),
      )
      ∷ (codes "mock", env.of_bool true)
      ∷ []);
  error = none;
  artifacts = [];
  started_at = some (env.now tool_start);
  finished_at = some (env.now tool_end);
}

-- An exception of a model's validators as the exception of a tool executor.
abbrev pub described :
    (env : Env) → Result ToolError (ToolResult env.V) → Result Text (ToolResult env.V)
described env (ok result) = ok result
described env (err e) = err (env.describe e)

unfoldable pub default_tool_executor :
    (env : Env) → ToolInvocation env.V → Result Text (ToolResult env.V)
default_tool_executor env invocation = described env (check_result (default_result env invocation))

-- `PipelineExecutor()`, which has no provider.
unfoldable pub default_executor : (env : Env) (W : Type 0) → Executor env.V W
default_executor env W = record {
  tool_executor = λ invocation world. (default_tool_executor env invocation, world);
  model_provider = none;
}

-- `MessageRole.value`
unfoldable pub role_value : MessageRole → Text
role_value system_role = codes "system"
role_value user_role = codes "user"
role_value assistant_role = codes "assistant"

-- `str(tool_result.output)` of a dictionary, and "" for None.
unfoldable pub output_text : (env : Env) → ToolResult env.V → Text
output_text env result = elim result.output [ none ↦ [] | some output ↦ env.render output ]

-- The trace of all criteria, as step 3 reports it.
unfoldable pub all_checks_trace : Bool → ℕ → VerificationTrace
all_checks_trace all_pass n = record {
  check_name = codes "all_checks";
  status = if all_pass then success else failure;
  summary = some (
      (if all_pass then codes "passed" else codes "failed")
      ++ (codes " " ++ (decimal n ++ codes " check(s)")));
}

module _ (env : Env) {W : Type 0} (executor : Executor env.V W) (input : PipelineInput) where
  abbrev contract : TaskContract
  contract = input.task_contract

  abbrev Action : Type 0
  Action = Act env.V W (PipelineResult env.V)

  -- A step between the clock readings at its start and its end.
  abbrev timed : ℕ → StepType → TraceEventStatus → ℕ → ExecutionStepResult env.V
  timed index type status hundredths =
      bare_step index type status hundredths (env.now (step_start index)) (env.now (step_end index))

  -- `return self._build_result(...)`
  unfoldable pub finish_with : Option Text → Action
  finish_with error s = (
    build_result env input.run_id contract.task_id s.driver.current_state_id s.step_results error,
    s,
  )

  -- Step 3.
  unfoldable pub verify : ToolResult env.V → Action
  verify result = do
    traces ←
        build trace_failed (
          each (λ c. check_criterion env.lower c (output_text env result))
            contract.success_criteria)
    let all_pass = all? (λ v. v.status == success) traces
    fire (if all_pass then verification_passed else verification_failed_terminal) none
    trace ←
        build trace_failed (check_verification_trace (all_checks_trace all_pass (length traces)))
    add_step (record (timed 3 verification (if all_pass then success else failure) 15) {
      verification_trace = some trace;
    })
    finish_with none

  -- The result of a provider that returned, and of one that raised.
  unfoldable pub generated : ToolInvocation env.V → ModelResponse → ToolResult env.V
  generated invocation response = record {
    invocation_id = invocation.invocation_id;
    tool_name = invocation.tool_name;
    status = tool_success;
    output = some (
        (codes "content", env.of_text response.content)
        ∷ (codes "model", env.of_text response.model_used)
        ∷ (codes "finish_reason", env.of_text response.finish_reason)
        ∷ []);
    error = none;
    artifacts = [];
    started_at = some (env.now (step_start 2));
    finished_at = some (env.now result_end);
  }

  unfoldable pub generation_failed : ToolInvocation env.V → Text → ToolResult env.V
  generation_failed invocation message = record {
    invocation_id = invocation.invocation_id;
    tool_name = invocation.tool_name;
    status = tool_error;
    output = some [];
    error = some message;
    artifacts = [];
    started_at = some (env.now (step_start 2));
    finished_at = some (env.now result_end);
  }

  -- The `except Exception` of step 2: the error's text becomes a failed result.
  unfoldable pub give_up : ToolInvocation env.V → Text → Act env.V W (Bool × ToolResult env.V)
  give_up invocation message = do
    result ← build tool_failed (check_result (generation_failed invocation message))
    return (false, result)

  unfoldable pub accept :
      ToolInvocation env.V
      → Result ToolError (ToolResult env.V)
      → Act env.V W (Bool × ToolResult env.V)
  accept invocation (ok result) = return (true, result)
  accept invocation (err e) = give_up invocation (env.describe e)

  -- What step 2 does with what the provider gave.
  unfoldable pub receive :
      ToolInvocation env.V → Result Text ModelResponse → Act env.V W (Bool × ToolResult env.V)
  receive invocation (err message) = give_up invocation message
  receive invocation (ok response) =
      accept invocation (check_result (generated invocation response))

  -- What step 2 does with what the tool executor gave.
  unfoldable pub after_call :
      State env.V W
      → Result Text (ToolResult env.V) × W
      → Result RunError (Bool × ToolResult env.V) × State env.V W
  after_call s (ok result, w) = (ok (result.status == tool_success, result), record s { world = w })
  after_call s (err message, w) = (err (executor_raised message), record s { world = w })

  -- The call of the provider or of the tool executor: whether it succeeded, and its result.
  unfoldable pub call_tool :
      ToolInvocation env.V
      → Option (List (Text × Text) → W → Result Text ModelResponse × W)
      → Act env.V W (Bool × ToolResult env.V)
  call_tool invocation none s = after_call s (executor.tool_executor invocation s.world)
  call_tool invocation (some generate) s =
      (do
        assembly ←
            build assembly_failed
              (build_prompt_assembly (env.hex (assembly_purpose 1)) contract input.run_id)
        let messages = map (λ m. (role_value m.role, m.content)) assembly.messages
        response ← λ s'. let (r, w) = generate messages s'.world in (ok r, record s' { world = w })
        receive invocation response)
        s

  unfoldable pub perform : ToolInvocation env.V → Act env.V W (Bool × ToolResult env.V)
  perform invocation = call_tool invocation executor.model_provider

  -- Steps 2 and 3.
  unfoldable pub execute : ToolInvocation env.V → Action
  execute invocation = do
    outcome ← perform invocation
    let tool_ok = outcome.0
    let result = outcome.1
    add_step (record (timed 2 tool_execution (if tool_ok then success else failure) 20) {
      tool_invocation = some invocation;
      tool_result = some result;
      error = if tool_ok then none else result.error;
    })
    elim tool_ok [
      | true ↦ do caught ← try_fire tool_completed; verify result
      | false ↦ do
        caught ← try_fire tool_failed_retryable
        finish_with (some (text_or result.error (codes "execution failed")))
    ]
