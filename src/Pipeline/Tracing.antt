-- ===== src/Pipeline/Tracing.antt =====
-- When `_build_result` of harness/pipeline.py returns, and what it returns.
use nova_harness.Prelude.{
  All, Bool-cases, List, Option, Text, [], ap, arith, codes, count_if, decimal, false,
  if◌then◌else◌, inl, inr, is_blank, is_nil, is_some, length, list_repr, map, none, ok, refl,
  required, required_solid, run_texts, some, strip, suc, sym, true, ℕ, ◌++◌, ◌+◌, ◌∙◌, ◌∷◌, ◌≡◌,
  ◌≢◌, ◌≤◌,
}
use nova_harness.Bench.{BenchmarkRun, check_benchmark_run, check_grader, fail, pass, run_text_empty}
use nova_harness.Machine.{RunState, run_state_value}
use nova_harness.Pipeline.Build.{each}
use nova_harness.Pipeline.Outcome.{
  auto_grader, benchmark_of, build_result, build_step_trace, build_tool_trace, has_status,
  is_success, metrics_of, run_trace_of, step_trace_of, summary_of, terminal_status_of,
  tool_trace_of,
}
use nova_harness.Pipeline.Types.{Env, ExecutionStepResult, PipelineResult, run_end}
use nova_harness.Tool.{ToolInvocation, ToolResult}
use nova_harness.Trace.{
  StepTrace, ToolTrace, TraceEventStatus-discrete, argument_summary_empty, blocked, check_run_trace,
  check_step, check_summary, check_tool_trace, failure, is_terminal_status, no_stamp, step_id_empty,
  success, tool_trace_name_empty,
}
use nova_harness.Trace.Shape.{Counts, check_run_trace_iff}
use mathlib.Core.Option.{some-injective}

-- What the trace of a step needs: an end and a latency unless the step was skipped, and a name of the
-- tool if the step has a result.
pub record IsTraceable {V : Type 0} (r : ExecutionStepResult V) : Type 0 where
  pub ended : is_terminal_status r.status ≡ true → no_stamp r.finished_at ≡ false
  pub measured : is_terminal_status r.status ≡ true → is_some r.latency_seconds ≡ true
  pub named :
      (invocation : ToolInvocation V)
      → r.tool_invocation ≡ some invocation
      → is_blank invocation.tool_name ≡ false

module _ {V : Type 0} where
  -- The steps are numbered from `i` on.
  abbrev pub Numbered : ℕ → List (ExecutionStepResult V) → Type 0
  Numbered i [] = Unit
  Numbered i (r ∷ steps) = (r.step_index ≡ i) × Numbered (suc i) steps

  tool_trace-ok :
      (r : ExecutionStepResult V) (i : Option (ToolInvocation V)) (o : Option (ToolResult V))
      → ((invocation : ToolInvocation V)
          → i ≡ some invocation
          → is_blank invocation.tool_name ≡ false)
      → (tool : Option ToolTrace) × (build_tool_trace r i o ≡ ok tool)
  unfolding build_tool_trace
  tool_trace-ok r (some invocation) (some result) named =
      let trace = tool_trace_of r invocation result in
      (
        some (record trace {
          tool_name = strip trace.tool_name;
          argument_summary = strip trace.argument_summary;
        }),
        unfold check_tool_trace tool_trace_of in
            rw (required_solid tool_trace_name_empty invocation.tool_name (named invocation refl)) (
              rw (
                required_solid argument_summary_empty
                  (list_repr (map (λ item. item.0) invocation.arguments))
                  (unfold list_repr run_texts in refl))),
      )
  tool_trace-ok r (some invocation) none named = (none, refl)
  tool_trace-ok r none o named = (none, refl)

  step_trace-ok :
      (r : ExecutionStepResult V)
      → IsTraceable r
      → (trace : StepTrace) × (build_step_trace r ≡ ok trace) × (trace.step_index ≡ r.step_index)
  unfolding build_step_trace step_trace_of
  step_trace-ok r h =
      let (tool, e) = tool_trace-ok r r.tool_invocation r.tool_result h.named in
      let id : Text = codes "step-" ++ decimal r.step_index in
      let solid : is_blank id ≡ false = unfold run_texts in refl in
      (
        record (step_trace_of r tool) { step_id = strip id },
        rw e (
            unfold check_step in
            ground (arith, required_solid step_id_empty id solid, h.ended, h.measured)),
        refl,
      )

  traces-ok :
      (i : ℕ) (steps : List (ExecutionStepResult V))
      → Numbered i steps
      → All IsTraceable steps
      → (traces : List StepTrace) × (each build_step_trace steps ≡ ok traces)
        × Counts i traces
        × (length traces ≡ length steps)
  unfolding each
  traces-ok i [] n h = ([], refl, tt, refl)
  traces-ok i (r ∷ steps) n h =
      let (trace, e, index) = step_trace-ok r h.0 in
      let (traces, e', counts, same) = traces-ok (suc i) steps n.1 h.1 in
      (trace ∷ traces, rw e (rw e'), (index ∙ n.0, counts), ap suc same)

  -- Each step has one status.
  statuses-le-length :
      (steps : List (ExecutionStepResult V))
      → count_if (has_status success) steps
          + count_if (has_status failure) steps
          + count_if (has_status blocked) steps
        ≤ length steps
  unfolding count_if has_status TraceEventStatus-discrete
  statuses-le-length [] = omega arith
  statuses-le-length (r ∷ steps) = ground (arith, statuses-le-length steps)

  summary-ok :
      (steps : List (ExecutionStepResult V))
      → check_summary (summary_of steps) ≡ ok (summary_of steps)
  unfolding check_summary summary_of
  summary-ok steps = ground (arith, statuses-le-length steps)

module _ (env : Env) (run_id task_id : Text) (state : RunState)
    (steps : List (ExecutionStepResult env.V)) (error : Option Text) where
  -- What a result says of the run that it ends.
  pub record Reports (r : PipelineResult env.V) : Type 0 where
    pub succeeds : r.success ≡ is_success state error
    pub ends_in : r.terminal_state ≡ run_state_value state
    pub lists : r.steps ≡ steps
    pub passes_on : r.error ≡ error
    pub status : r.run_trace.terminal_status ≡ terminal_status_of state steps error
    pub counts : r.run_trace.summary ≡ some (summary_of steps)
    pub numbered : Counts 0 r.run_trace.steps
    pub as_many : length r.run_trace.steps ≡ length steps
    pub judged :
        (b : BenchmarkRun)
        → r.benchmark_run ≡ some b
        → b.verdict ≡ (if is_success state error then pass else fail)

  grader-ok : check_grader auto_grader ≡ ok auto_grader
  unfolding check_grader auto_grader required run_texts
  grader-ok = refl

  abbrev checked_benchmark : BenchmarkRun
  checked_benchmark = record (benchmark_of env run_id task_id state steps error auto_grader) {
    run_id = strip run_id;
    task_id = strip task_id;
  }

  benchmark-ok :
      is_blank run_id ≡ false
      → is_blank task_id ≡ false
      → is_nil (env.now run_end) ≡ false
      → check_benchmark_run (benchmark_of env run_id task_id state steps error auto_grader)
        ≡ ok checked_benchmark
  unfolding check_benchmark_run metrics_of
  benchmark-ok run_solid task_solid ends = rw (required_solid run_text_empty run_id run_solid) (
      rw (required_solid run_text_empty task_id task_solid) (
        unfold required run_texts in
        elim (Bool-cases (is_success state error)) [
          | inl good ↦ rw (good, ends)
          | inr bad ↦ rw (bad, ends)
        ]))

  trace-ok :
      (traces : List StepTrace)
      → is_blank run_id ≡ false
      → is_blank task_id ≡ false
      → is_nil (env.now run_end) ≡ false
      → steps ≢ []
      → Counts 0 traces
      → length traces ≡ length steps
      → check_run_trace
          (run_trace_of env run_id task_id state steps error traces (summary_of steps))
        ≡ ok (record (run_trace_of env run_id task_id state steps error traces (summary_of steps)) {
          run_id = strip run_id;
          task_id = strip task_id;
        })
  unfolding summary_of
  trace-ok traces run_solid task_solid ends some_step counts same = (check_run_trace_iff _ _).1 (
    run_solid,
    task_solid,
    record {
      some_step = λ e. some_step (ground (arith, same));
      numbered = counts;
      finished = λ _. ends;
      summed = sym same;
    },
    refl,
  )

  pub build_result-Reports :
      is_blank run_id ≡ false
      → is_blank task_id ≡ false
      → is_nil (env.now run_end) ≡ false
      → steps ≢ []
      → Numbered 0 steps
      → All IsTraceable steps
      → (r : PipelineResult env.V) × (build_result env run_id task_id state steps error ≡ ok r)
        × Reports r
  unfolding build_result
  build_result-Reports run_solid task_solid ends some_step numbered traceable =
      let (traces, built, counts, same) = traces-ok 0 steps numbered traceable in
      (
        record {
          run_id = run_id;
          task_id = task_id;
          success = is_success state error;
          terminal_state = run_state_value state;
          steps = steps;
          run_trace =
              record (run_trace_of env run_id task_id state steps error traces (summary_of steps)) {
                run_id = strip run_id;
                task_id = strip task_id;
              };
          benchmark_run = some checked_benchmark;
          error = error;
        },
        rw built (
            rw (summary-ok steps) (
              rw (trace-ok traces run_solid task_solid ends some_step counts same)
                (rw grader-ok (rw (benchmark-ok run_solid task_solid ends))))),
        record {
          succeeds = refl;
          ends_in = refl;
          lists = refl;
          passes_on = refl;
          status = refl;
          counts = refl;
          numbered = counts;
          as_many = same;
          judged = λ b e. ap (λ x. x.verdict) (sym (some-injective _ _ e));
        },
      )
