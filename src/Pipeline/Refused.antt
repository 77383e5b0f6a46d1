-- ===== src/Pipeline/Refused.antt =====
-- Runs of `PipelineExecutor.run` with a driver that refuses to start.
use nova_harness.Prelude.{
  Option, Text, [], ap, count_if, err, false, is_blank, mem?, nat_eq, none, ok, required_solid,
  some, text_eq, ◌∙◌, ◌≡◌,
}
use nova_harness.Driver.{StateDriver, TriggerError, trigger, trigger_message}
use nova_harness.Machine.{RunState, key_eq, run_event_eq, run_state_eq, start_run}
use nova_harness.Pipeline.Act.{State, try_fire}
use nova_harness.Pipeline.Build.{each}
use nova_harness.Pipeline.Execute.{Executor, finish_with}
use nova_harness.Pipeline.Outcome.{build_result, summary_of}
use nova_harness.Pipeline.Run.{fresh_driver, run, run_from_start}
use nova_harness.Pipeline.Types.{Env, PipelineInput, trace_failed}
use nova_harness.Trace.{
  check_run_trace, check_summary, no_step, policy_outcome_type_eq, trace_event_status_eq,
  trace_run_id_empty, trace_task_id_empty,
}

module _ (env : Env) {W : Type 0} (executor : Executor env.V W) (input : PipelineInput) where
  start_with : StateDriver → W → State env.V W
  start_with d world = record { driver = d; world = world; step_results = [] }

  refused_fire :
      (d d' : StateDriver) (e : TriggerError) (world : W)
      → trigger d start_run none ≡ (err e, d')
      → try_fire start_run (start_with d world) ≡ (ok (some e), start_with d' world)
  unfolding try_fire start_with trigger mem?
  refused_fire d d' e world refused = rw (ap (λ r. r.0) refused) (rw (ap (λ r. r.1) refused))

  -- A result cannot be built from no steps.
  no_result :
      (state : RunState) (error : Option Text)
      → is_blank input.run_id ≡ false
      → is_blank input.task_contract.task_id ≡ false
      → build_result env input.run_id input.task_contract.task_id state [] error
        ≡ err (trace_failed no_step)
  unfolding build_result each check_summary summary_of check_run_trace count_if
  no_result state error run_solid task_solid =
      rw (required_solid trace_run_id_empty input.run_id run_solid)
        (rw (required_solid trace_task_id_empty input.task_contract.task_id task_solid))

  started :
      (d d' : StateDriver) (e : TriggerError) (world : W)
      → trigger d start_run none ≡ (err e, d')
      → run_from_start env executor input (start_with d world)
        ≡ finish_with env executor input (some (trigger_message e)) (start_with d' world)
  started d d' e world refused = unfold run_from_start in rw (refused_fire d d' e world refused)

  -- With a driver given that raises on `start_run`, and ids that are not blank, the run does not
  -- return: the ValidationError of a run trace without steps escapes.
  pub run_refused :
      (d d' : StateDriver) (e : TriggerError) (world : W)
      → input.state_driver ≡ some d
      → trigger d start_run none ≡ (err e, d')
      → is_blank input.run_id ≡ false
      → is_blank input.task_contract.task_id ≡ false
      → (run env executor input world).0 ≡ err (trace_failed no_step)
  run_refused d d' e world given refused run_solid task_solid =
      let begun : run env executor input world
          ≡ run_from_start env executor input (start_with d world) =
        unfold run start_with in
        ap
          (λ given. run_from_start env executor input (record {
            driver = elim given as (λ _. StateDriver) [ none ↦ fresh_driver | some d ↦ d ];
            world = world;
            step_results = [];
          }))
          given in
      let ended = begun ∙ started d d' e world refused in
      ap (λ outcome. outcome.0) ended
      ∙ unfold finish_with start_with in
        no_result d'.current_state_id (some (trigger_message e)) run_solid task_solid
