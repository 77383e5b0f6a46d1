-- ===== src/Pipeline/Refines.antt =====
-- What `PipelineExecutor.run` of harness/pipeline.py does to its driver, as the state driver's own
-- specification sees it.
use nova_harness.Prelude.{List, ap, codes, none, ok, some, sym, true, ◌∙◌, ◌≡◌}
use nova_harness.Driver.{StateDriver, trigger_all}
use nova_harness.Driver.Default.{
  Crossing, has_responded, has_started, has_succeeded, run_default, success_needs,
}
use nova_harness.Machine.{model_response_received, start_run, verification_passed}
use nova_harness.Pipeline.Client.{IsHonest, keeps_run_from_start}
use nova_harness.Pipeline.Driven.{Call, IsKept, Left, Reaches, Reaches-IsKept, no_calls}
use nova_harness.Pipeline.Execute.{Executor}
use nova_harness.Pipeline.Run.{fresh_driver, run}
use nova_harness.Pipeline.Types.{Env, PipelineInput, PipelineResult}

-- The driver that a run starts with.
abbrev pub first_driver : PipelineInput → StateDriver
first_driver input = elim input.state_driver [ none ↦ fresh_driver | some driver ↦ driver ]

module _ (env : Env) {W : Type 0} (executor : Executor env.V W) (input : PipelineInput)
    (world : W) where
  run_client :
      (P : StateDriver → Type 0)
      → IsKept P
      → P (first_driver input)
      → Left P IsHonest (run env executor input world)
  unfolding run
  run_client P kept h = keeps_run_from_start env executor input P kept _ h

  -- However a run goes, and whether it returns or raises, what it did to its driver, the given one or a
  -- fresh one, is a sequence of `trigger` calls, each after the one before it whether that returned or
  -- raised; and if it returns a result, then its terminal state is the driver's last one, and a success
  -- is reported only in `succeeded`.
  pub run-trigger_all :
      (calls : List Call) × ((run env executor input world).1.driver
        ≡ trigger_all (first_driver input) calls)
      × ((r : PipelineResult env.V)
          → (run env executor input world).0 ≡ ok r
          → IsHonest r (run env executor input world).1.driver)
  run-trigger_all =
      let left =
        run_client (Reaches (first_driver input)) (Reaches-IsKept (first_driver input))
          (no_calls (first_driver input)) in
      (left.keeps.0, left.keeps.1, left.gives)

  -- A run of any task without a driver of its own that reports success has, in the driver's history, an
  -- allowed `start_run`, an allowed `model_response_received` and, into `succeeded`, an allowed
  -- `verification_passed`, whatever the tool executor, the model provider and the policy do.
  pub run_success_needs :
      (r : PipelineResult env.V)
      → input.state_driver ≡ none
      → (run env executor input world).0 ≡ ok r
      → r.success ≡ true
      → let history = (run env executor input world).1.driver.history in
        Crossing has_started start_run history
        × Crossing has_responded model_response_received history
        × Crossing has_succeeded verification_passed history
  run_success_needs r fresh returned claimed =
      let (calls, driven, honest) = run-trigger_all in
      let from_fresh : first_driver input ≡ fresh_driver =
        ap (λ o. elim o [ none ↦ fresh_driver | some driver ↦ driver ]) fresh in
      let e : (run env executor input world).1.driver ≡ run_default (codes "harness-v1") calls =
        driven ∙ (unfold fresh_driver in ap (λ d. trigger_all d calls) from_fresh) in
      let done = (honest r returned).achieved claimed in
      rw e (success_needs (codes "harness-v1") calls (ap (λ d. d.current_state_id) (sym e) ∙ done))
