-- ===== src/Bench/Suite.antt =====
-- models/benchmark.py: tasks, summaries and suites. Rates and averages are counted in hundredths.
use nova_harness.Prelude.{
  List, Option, Result, Text, is_nil, ltb_ℤ, ok, pos, refuse, required, ℤ, ◌>>=◌, ◌>>◌, ◌||◌,
}

pub data BenchTaskType : Type 0 where
  coding debugging refactoring report : BenchTaskType

pub record TaskReference : Type 0 where
  pub reference_id : Text
  pub description : Text
  pub expected_artifacts : List Text
  pub reference_notes : Option Text

-- `V` stands for the Python values of the inputs.
pub record BenchmarkTask (V : Type 0) : Type 0 where
  pub task_id : Text
  pub name : Text
  pub task_type : BenchTaskType
  pub prompt : Text
  pub inputs : List (Text × V)
  pub reference : Option TaskReference
  pub tags : List Text

pub record BenchmarkSummary : Type 0 where
  pub suite_id : Text
  pub total_runs : ℤ
  pub pass_rate : ℤ
  pub average_latency_seconds : Option ℤ
  pub average_cost_usd : Option ℤ
  pub total_safety_violations : ℤ

pub record BenchmarkSuite (V : Type 0) : Type 0 where
  pub suite_id : Text
  pub name : Text
  pub tasks : List (BenchmarkTask V)
  pub summary : Option BenchmarkSummary

pub data SuiteError : Type 0 where
  reference_text_empty bench_task_text_empty summary_suite_id_empty : SuiteError
  total_runs_negative pass_rate_out_of_range violations_negative : SuiteError
  suite_text_empty no_task : SuiteError

unfoldable pub check_reference : TaskReference → Result SuiteError TaskReference
check_reference r = do
  reference_id ← required reference_text_empty r.reference_id
  description ← required reference_text_empty r.description
  ok (record r { reference_id = reference_id; description = description })

unfoldable pub check_bench_task :
    {V : Type 0} → BenchmarkTask V → Result SuiteError (BenchmarkTask V)
check_bench_task t = do
  task_id ← required bench_task_text_empty t.task_id
  name ← required bench_task_text_empty t.name
  prompt ← required bench_task_text_empty t.prompt
  ok (record t { task_id = task_id; name = name; prompt = prompt })

unfoldable pub check_bench_summary : BenchmarkSummary → Result SuiteError BenchmarkSummary
check_bench_summary s = do
  suite_id ← required summary_suite_id_empty s.suite_id
  refuse (ltb_ℤ s.total_runs (pos 0)) total_runs_negative
  refuse (ltb_ℤ s.pass_rate (pos 0) || ltb_ℤ (pos 100) s.pass_rate) pass_rate_out_of_range
  refuse (ltb_ℤ s.total_safety_violations (pos 0)) violations_negative
  ok (record s { suite_id = suite_id })

unfoldable pub check_suite : {V : Type 0} → BenchmarkSuite V → Result SuiteError (BenchmarkSuite V)
check_suite s = do
  suite_id ← required suite_text_empty s.suite_id
  name ← required suite_text_empty s.name
  refuse (is_nil s.tasks) no_task
  ok (record s { suite_id = suite_id; name = name })
