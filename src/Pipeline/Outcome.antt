-- ===== src/Pipeline/Outcome.antt =====
-- `_build_result` of harness/pipeline.py.
use nova_harness.Prelude.{
  Bool, List, Option, Result, Text, [], codes, count_if, decimal, err, false, has_text,
  if◌then◌else◌, is_nil, is_some, leb, length, list_repr, ltb, map, nat_eq, none, not, ok, some,
  text_eq, ℕ, ◌&&◌, ◌*◌, ◌++◌, ◌+◌, ◌==◌, ◌>>=◌, ◌||◌, ◌∷◌,
}
use nova_harness.Bench.{
  BenchmarkRun, GraderDefinition, MetricName, MetricResult, check_benchmark_run, check_grader,
  deterministic_grader, fail, latency_metric, pass, retry_count, safety_violations, task_success,
  verification_pass,
}
use nova_harness.Machine.{
  RunState, failed, key_eq, run_event_eq, run_state_eq, run_state_value, succeeded,
}
use nova_harness.Pipeline.Build.{each}
use nova_harness.Pipeline.Types.{
  Env, ExecutionStepResult, PipelineResult, RunError, bench_failed, run_end, run_start,
  trace_failed,
}
use nova_harness.Tool.{ToolInvocation, ToolResult, approval_state_eq, tool_status_eq, tool_success}
use nova_harness.Trace.{
  RunTrace, StepTrace, ToolTrace, TraceError, TraceEventStatus, TraceSummary, blocked,
  blocked_outcome, check_run_trace, check_step, check_summary, check_tool_trace, failure,
  policy_outcome_type_eq, success, trace_event_status_eq,
}

-- `error` is neither None nor empty.

-- `x or default` for an optional string.
unfoldable pub text_or : Option Text → Text → Text
text_or none default = default
text_or (some t) default = if is_nil t then default else t

-- `x if x else None` for an optional string.
unfoldable pub text_or_none : Option Text → Option Text
text_or_none none = none
text_or_none (some t) = if is_nil t then none else some t

abbrev pub seconds_of : Option ℕ → ℕ
seconds_of none = 0
seconds_of (some n) = n

module _ {V : Type 0} where
  -- `sum(r.latency_seconds or 0 for r in step_results)`
  unfoldable pub total_latency : List (ExecutionStepResult V) → ℕ
  total_latency [] = 0
  total_latency (r ∷ steps) = seconds_of r.latency_seconds + total_latency steps

  unfoldable pub has_status : TraceEventStatus → ExecutionStepResult V → Bool
  has_status status r = r.status == status

  unfoldable pub is_policy_block : ExecutionStepResult V → Bool
  is_policy_block r = elim r.policy_trace [
    | none ↦ false
    | some policy ↦ policy.outcome == blocked_outcome
  ]

  unfoldable pub is_verification_failure : ExecutionStepResult V → Bool
  is_verification_failure r = elim r.verification_trace [
    | none ↦ false
    | some trace ↦ trace.status == failure
  ]

  unfoldable pub tool_trace_of : ExecutionStepResult V → ToolInvocation V → ToolResult V → ToolTrace
  tool_trace_of r invocation result = record {
    tool_name = invocation.tool_name;
    argument_summary = list_repr (map (λ item. item.0) invocation.arguments);
    status = if result.status == tool_success then success else failure;
    latency_seconds = seconds_of r.latency_seconds;
    error = text_or_none result.error;
  }

  -- The `tool` of a step trace: there is one if the step has an invocation and a result.
  unfoldable pub build_tool_trace :
      ExecutionStepResult V
      → Option (ToolInvocation V)
      → Option (ToolResult V)
      → Result TraceError (Option ToolTrace)
  build_tool_trace r (some invocation) (some result) =
      check_tool_trace (tool_trace_of r invocation result) >>= λ trace. ok (some trace)
  build_tool_trace r _ _ = ok none

  unfoldable pub step_trace_of : ExecutionStepResult V → Option ToolTrace → StepTrace
  step_trace_of r tool = record {
    step_id = codes "step-" ++ decimal r.step_index;
    step_index = r.step_index;
    step_type = r.step_type;
    status = r.status;
    started_at = r.started_at;
    finished_at = r.finished_at;
    latency_seconds = r.latency_seconds;
    tool = tool;
    policy = r.policy_trace;
    verification = r.verification_trace;
    retry = r.retry_trace;
    context_item_ids = [];
  }

  unfoldable pub build_step_trace : ExecutionStepResult V → Result TraceError StepTrace
  build_step_trace r = build_tool_trace r r.tool_invocation r.tool_result >>= λ tool.
      check_step (step_trace_of r tool)

  unfoldable pub summary_of : List (ExecutionStepResult V) → TraceSummary
  summary_of steps = record {
    total_steps = length steps;
    successful_steps = count_if (has_status success) steps;
    failed_steps = count_if (has_status failure) steps;
    blocked_steps = count_if (has_status blocked) steps;
    total_tool_calls = count_if (λ r. is_some r.tool_invocation) steps;
    total_policy_checks = count_if (λ r. is_some r.policy_trace) steps;
    policy_blocks = count_if is_policy_block steps;
    total_retries = count_if (λ r. is_some r.retry_trace) steps;
    total_verification_checks = count_if (λ r. is_some r.verification_trace) steps;
    verification_failures = count_if is_verification_failure steps;
    total_latency_seconds = total_latency steps;
  }

  unfoldable pub terminal_status_of :
      RunState → List (ExecutionStepResult V) → Option Text → TraceEventStatus
  terminal_status_of state steps error =
      if ltb 0 (count_if (has_status blocked) steps)
      then blocked
      else if state == failed || has_text error
      then failure
      else success

unfoldable pub is_success : RunState → Option Text → Bool
is_success state error = state == succeeded && not (has_text error)

unfoldable pub auto_grader : GraderDefinition
auto_grader = record {
  grader_id = codes "grd-auto";
  name = codes "Auto result";
  grader_type = deterministic_grader;
  rubric = none;
  pass_condition = codes "success == True";
}

abbrev metric : MetricName → ℕ → Text → Option ℕ → Option Bool → MetricResult
metric name value unit threshold passed = record {
  metric_name = name;
  value = value;
  unit = some unit;
  threshold = threshold;
  passed = passed;
}

-- The metrics, in hundredths.
unfoldable pub metrics_of : Bool → ℕ → ℕ → ℕ → List MetricResult
metrics_of succeeds failures blocks latency =
    metric task_success (if succeeds then 100 else 0) (codes "bool") none (some succeeds)
    ∷ metric verification_pass (if failures == 0 then 100 else 0) (codes "bool") none
        (some (failures == 0))
    ∷ metric latency_metric latency (codes "s") (some 3000) (some (leb latency 3000))
    ∷ metric retry_count 0 (codes "count") none none
    ∷ metric safety_violations (100 * blocks) (codes "count") none none
    ∷ []

abbrev pub wrap : {A E : Type 0} → (E → RunError) → Result E A → Result RunError A
wrap f (ok a) = ok a
wrap f (err e) = err (f e)

module _ (env : Env) (run_id task_id : Text) (state : RunState)
    (steps : List (ExecutionStepResult env.V)) (error : Option Text) where
  abbrev pub run_trace_of : List StepTrace → TraceSummary → RunTrace
  run_trace_of traces summary = record {
    run_id = run_id;
    task_id = task_id;
    prompt_assembly_id = none;
    steps = traces;
    terminal_status = terminal_status_of state steps error;
    total_latency_seconds = total_latency steps;
    started_at = env.now run_start;
    finished_at = some (env.now run_end);
    summary = some summary;
  }

  abbrev pub benchmark_of : GraderDefinition → BenchmarkRun
  benchmark_of grader = record {
    run_id = run_id;
    suite_id = codes "pipeline-executor";
    task_id = task_id;
    harness_version = codes "0.1.0";
    model_name = codes "mock";
    graders = grader ∷ [];
    metrics =
        metrics_of (is_success state error) (count_if (has_status failure) steps)
          (count_if (has_status blocked) steps) (total_latency steps);
    verdict = if is_success state error then pass else fail;
    started_at = some (env.now run_start);
    finished_at = some (env.now run_end);
  }

  -- `_build_result`, from the state that the driver is in and the steps so far.
  unfoldable pub build_result : Result RunError (PipelineResult env.V)
  build_result = wrap trace_failed (each build_step_trace steps) >>= λ traces.
      wrap trace_failed (check_summary (summary_of steps)) >>= λ summary.
      wrap trace_failed (check_run_trace (run_trace_of traces summary)) >>= λ trace.
      wrap bench_failed (check_grader auto_grader) >>= λ grader.
      wrap bench_failed (check_benchmark_run (benchmark_of grader)) >>= λ benchmark. ok (record {
        run_id = run_id;
        task_id = task_id;
        success = is_success state error;
        terminal_state = run_state_value state;
        steps = steps;
        run_trace = trace;
        benchmark_run = some benchmark;
        error = error;
      })
