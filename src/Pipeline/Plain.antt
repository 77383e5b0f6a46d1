-- ===== src/Pipeline/Plain.antt =====
-- Runs of `PipelineExecutor()` of harness/pipeline.py, with neither a provider nor a tool executor.
use nova_harness.Prelude.{ap, ok, refl, required_solid, true, ◌∙◌, ◌≡◌, ◌≢◌}
use nova_harness.Pipeline.Called.{prescribed}
use nova_harness.Pipeline.Complete.{call, ends_well, run_outcome}
use nova_harness.Pipeline.Execute.{
  Executor, default_executor, default_result, default_tool_executor, described,
}
use nova_harness.Pipeline.Generated.{Named, call-Named}
use nova_harness.Pipeline.Prepared.{IsRunnable}
use nova_harness.Pipeline.Run.{run}
use nova_harness.Pipeline.Types.{Env, PipelineInput, PipelineResult}
use nova_harness.Pipeline.Verified.{criteria_pass}
use nova_harness.Safety.{block}
use nova_harness.Tool.{
  ToolInvocation, ToolStatus-discrete, check_result, check_result_consistency,
  result_invocation_id_empty, result_tool_name_empty,
}

module _ (env : Env) {W : Type 0} (input : PipelineInput) where
  abbrev plain_executor : Executor env.V W
  plain_executor = default_executor env W

  default_result-ok :
      (invocation : ToolInvocation env.V)
      → Named env plain_executor input invocation
      → check_result (default_result env invocation) ≡ ok (default_result env invocation)
  unfolding check_result check_result_consistency default_result
  default_result-ok invocation h =
      rw (required_solid result_invocation_id_empty invocation.invocation_id h.identified) (
        rw (required_solid result_tool_name_empty invocation.tool_name h.named) (rw (h.name, h.id)))

  default_returns :
      (invocation : ToolInvocation env.V)
      → Named env plain_executor input invocation
      → default_tool_executor env invocation ≡ ok (default_result env invocation)
  unfolding default_tool_executor
  default_returns invocation h = ap (described env) (default_result-ok invocation h)

  -- A run of a runnable input with the default executor, whose policy does not block the tool, returns
  -- a result and leaves the world as it was; it succeeds exactly if the fixed output of the default
  -- tool meets all criteria of the contract.
  pub run_plain :
      (world : W)
      → IsRunnable env input
      → prescribed env plain_executor input ≢ block
      → (r : PipelineResult env.V) × ((run env plain_executor input world).0 ≡ ok r)
        × (r.success
            ≡ criteria_pass env plain_executor input
                (default_result env (call env plain_executor input)))
        × ((run env plain_executor input world).1.world ≡ world)
  unfolding default_result ToolStatus-discrete
  run_plain world runnable unblocked =
      let invocation : ToolInvocation env.V = call env plain_executor input in
      let (steps, count, ends) =
        run_outcome env plain_executor input world world (default_result env invocation) runnable
          unblocked (unfold default_executor in refl)
          (unfold default_executor in
            ap (λ r. (r, world))
              (default_returns invocation (call-Named env plain_executor input))) in
      (
        ends.result,
        ends.returned,
        ends.reports.succeeds
            ∙ ends_well env plain_executor input true (default_result env invocation),
        ends.leaves,
      )
