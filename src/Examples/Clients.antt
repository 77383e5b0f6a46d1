-- ===== src/Examples/Clients.antt =====
-- What a run does to its driver, on one task.
use nova_harness.Prelude.{
  List, Text, all?, keep, mem?, nat_eq, none, ok, refl, run_texts, text_eq, true, ◌∙◌, ◌≡◌,
}
use nova_harness.Driver.{trigger_all}
use nova_harness.Driver.Default.{Crossing, has_responded, has_started, has_succeeded}
use nova_harness.Examples.Runs.{answer, environment, input_of-IsRunnable, mock, plain}
use nova_harness.Machine.{
  key_eq, model_response_received, run_event_eq, run_state_eq, start_run, verification_passed,
}
use nova_harness.Pipeline.Client.{IsHonest}
use nova_harness.Pipeline.Complete.{run_success}
use nova_harness.Pipeline.Criteria.{found_in, is_no_output, judge}
use nova_harness.Pipeline.Driven.{Call}
use nova_harness.Pipeline.Execute.{output_text}
use nova_harness.Pipeline.Refines.{first_driver, run-trigger_all, run_success_needs}
use nova_harness.Pipeline.Run.{run}
use nova_harness.Pipeline.Types.{PipelineResult}
use nova_harness.Pipeline.Verified.{criteria_pass}
use nova_harness.Tool.{ToolStatus-discrete, approval_state_eq, tool_status_eq}
use nova_harness.Trace.{TraceEventStatus-discrete, policy_outcome_type_eq, trace_event_status_eq}

run-trigger_all_example :
    (calls : List Call) × ((run environment mock plain 0).1.driver
      ≡ trigger_all (first_driver plain) calls)
    × ((r : PipelineResult Text)
        → (run environment mock plain 0).0 ≡ ok r
        → IsHonest r (run environment mock plain 0).1.driver)
run-trigger_all_example = run-trigger_all environment mock plain 0

mock_passes : criteria_pass environment mock plain answer ≡ true
unfolding all? judge output_text run_texts TraceEventStatus-discrete is_no_output mem? found_in keep
mock_passes = refl

run_success_needs_example :
    let history = (run environment mock plain 0).1.driver.history in
    Crossing has_started start_run history
    × Crossing has_responded model_response_received history
    × Crossing has_succeeded verification_passed history
unfolding ToolStatus-discrete all?
run_success_needs_example =
    let done =
      run_success environment mock plain 0 1 answer (input_of-IsRunnable none) (λ e. cc) refl
        refl in
    run_success_needs environment mock plain 0 done.0 refl done.1 (done.2 ∙ mock_passes)
