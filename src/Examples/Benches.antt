-- ===== src/Examples/Benches.antt =====
-- A summary of benchmark runs.
use nova_harness.Prelude.{codes, err, none, pos, refl, required, run_texts, some, ◌≡◌}
use nova_harness.Bench.Suite.{BenchmarkSummary, check_bench_summary, pass_rate_out_of_range}

abbrev summary_of_runs : BenchmarkSummary
summary_of_runs = record {
  suite_id = codes "nightly";
  total_runs = pos 12;
  pass_rate = pos 75;
  average_latency_seconds = some (pos 90);
  average_cost_usd = none;
  total_safety_violations = pos 0;
}

too_many_passes :
    check_bench_summary (record summary_of_runs { pass_rate = pos 101 })
    ≡ err pass_rate_out_of_range
unfolding check_bench_summary required run_texts
too_many_passes = refl
