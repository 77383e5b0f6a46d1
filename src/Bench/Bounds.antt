-- ===== src/Bench/Bounds.antt =====
-- The bounds that the validators of `BenchmarkSummary` in models/benchmark.py set.
use nova_harness.Prelude.{
  ap, arith, false, is_blank, ltb_ℤ, negsuc, ok, pos, refl, required, required-ok, required_solid,
  strip, ℕ, ℤ, ◌||◌, ◌↔◌, ◌∙◌, ◌≡◌, ◌≤◌,
}
use nova_harness.Bench.Suite.{BenchmarkSummary, check_bench_summary, summary_suite_id_empty}

-- Counts that are not negative, and a rate between zero and one.
pub record IsBounded (s : BenchmarkSummary) : Type 0 where
  pub runs : ℕ
  pub rate : ℕ
  pub violations : ℕ
  pub runs_given : s.total_runs ≡ pos runs
  pub rate_given : s.pass_rate ≡ pos rate
  pub violations_given : s.total_safety_violations ≡ pos violations
  pub rate_bound : rate ≤ 100

summary_parts :
    (s : BenchmarkSummary) {s' : BenchmarkSummary}
    → check_bench_summary s ≡ ok s'
    → (required summary_suite_id_empty s.suite_id ≡ ok s'.suite_id)
      × (s' ≡ record s { suite_id = s'.suite_id })
      × (ltb_ℤ s.total_runs (pos 0) ≡ false)
      × (ltb_ℤ s.pass_rate (pos 0) || ltb_ℤ (pos 100) s.pass_rate ≡ false)
      × (ltb_ℤ s.total_safety_violations (pos 0) ≡ false)
unfolding check_bench_summary
summary_parts s h = ground arith

IsBounded-of :
    (s : BenchmarkSummary) (n p v : ℤ)
    → s.total_runs ≡ n
    → s.pass_rate ≡ p
    → s.total_safety_violations ≡ v
    → ltb_ℤ n (pos 0) ≡ false
    → ltb_ℤ p (pos 0) || ltb_ℤ (pos 100) p ≡ false
    → ltb_ℤ v (pos 0) ≡ false
    → IsBounded s
IsBounded-of s (pos n) (pos p) (pos v) a b c runs_fine rate_fine violations_fine = record {
  runs = n;
  rate = p;
  violations = v;
  runs_given = a;
  rate_given = b;
  violations_given = c;
  rate_bound = ground arith;
}
IsBounded-of s (negsuc n) p v a b c f g h = absurd (ground arith)
IsBounded-of s (pos n) (negsuc p) v a b c f g h = absurd (ground arith)
IsBounded-of s (pos n) (pos p) (negsuc v) a b c f g h = absurd (ground arith)

-- A summary is accepted exactly if its suite id is not blank, its counts are not negative and its
-- rate lies between zero and one; what is returned differs by the stripped id alone.
pub check_bench_summary_iff :
    (s s' : BenchmarkSummary)
    → (check_bench_summary s ≡ ok s') ↔ (
        (is_blank s.suite_id ≡ false)
        × IsBounded s
        × (s' ≡ record s { suite_id = strip s.suite_id }))
check_bench_summary_iff s s' = (
  (λ h.
      let (id, same, runs, rate, violations) = summary_parts s h in
      let (solid, stripped) = required-ok summary_suite_id_empty s.suite_id id in
      (
        solid,
        IsBounded-of s s.total_runs s.pass_rate s.total_safety_violations refl refl refl runs rate
            violations,
        same ∙ ap (λ i. record s { suite_id = i }) stripped,
      )),
  (λ (solid, good, same).
      unfold check_bench_summary in
      ground (
        arith,
        required_solid summary_suite_id_empty s.suite_id solid,
        good.runs_given,
        good.rate_given,
        good.violations_given,
        good.rate_bound,
      )),
)
