-- ===== src/Bench.antt =====
-- models/benchmark.py: graders, metrics and the record of a run. A metric's value is the natural
-- number of its hundredths, so the validator that refuses negative values has nothing to refuse.
pub mod Suite
pub mod Bounds
use nova_harness.Prelude.{
  Bool, List, Option, Result, Text, false, is_nil, none, ok, refuse, required, some, true, ℕ, ◌&&◌,
  ◌>>=◌, ◌>>◌,
}

pub data GraderType : Type 0 where
  deterministic_grader llm_judge human_grader : GraderType

pub data MetricName : Type 0 where
  task_success tool_success_metric latency_metric cost_usd retry_count safety_violations :
      MetricName
  verification_pass : MetricName

pub data BenchVerdict : Type 0 where
  pass fail partial : BenchVerdict

pub record GraderDefinition : Type 0 where
  pub grader_id : Text
  pub name : Text
  pub grader_type : GraderType
  pub rubric : Option Text
  pub pass_condition : Text

pub record MetricResult : Type 0 where
  pub metric_name : MetricName
  pub value : ℕ
  pub unit : Option Text
  pub threshold : Option ℕ
  pub passed : Option Bool

pub record BenchmarkRun : Type 0 where
  pub run_id : Text
  pub suite_id : Text
  pub task_id : Text
  pub harness_version : Text
  pub model_name : Text
  pub graders : List GraderDefinition
  pub metrics : List MetricResult
  pub verdict : BenchVerdict
  pub started_at : Option Text
  pub finished_at : Option Text

pub data BenchError : Type 0 where
  grader_text_empty run_text_empty no_grader no_metric bench_finished_at_missing : BenchError

unfoldable pub check_grader : GraderDefinition → Result BenchError GraderDefinition
check_grader g = do
  grader_id ← required grader_text_empty g.grader_id
  name ← required grader_text_empty g.name
  pass_condition ← required grader_text_empty g.pass_condition
  ok (record g { grader_id = grader_id; name = name; pass_condition = pass_condition })

-- `verdict in (PASS, FAIL)`
abbrev is_final : BenchVerdict → Bool
is_final partial = false
is_final _ = true

abbrev no_end : Option Text → Bool
no_end none = true
no_end (some t) = is_nil t

unfoldable pub check_benchmark_run : BenchmarkRun → Result BenchError BenchmarkRun
check_benchmark_run b = do
  run_id ← required run_text_empty b.run_id
  suite_id ← required run_text_empty b.suite_id
  task_id ← required run_text_empty b.task_id
  harness_version ← required run_text_empty b.harness_version
  model_name ← required run_text_empty b.model_name
  refuse (is_nil b.graders) no_grader
  refuse (is_nil b.metrics) no_metric
  refuse (is_final b.verdict && no_end b.finished_at) bench_finished_at_missing
  ok (record b {
    run_id = run_id;
    suite_id = suite_id;
    task_id = task_id;
    harness_version = harness_version;
    model_name = model_name;
  })
