-- ===== src/Examples/Machines.antt =====
-- Drivers and machines: the default machine and a small one.
use nova_harness.Prelude.{
  [], codes, false, is_blank, mem?, nat_eq, none, ok, refl, run_texts, strip, text_eq, true, ◌↔◌,
  ◌∙◌, ◌∷◌, ◌≡◌,
}
use nova_harness.Driver.{
  StateDriver, available_events, default_driver, no_transition, trigger, trigger_all,
}
use nova_harness.Driver.Default.{
  Calls, Crossing, at_state, default_live, has_responded, has_started, has_succeeded, run_default,
  run_env, success_needs, way_to_success, without_results,
}
use nova_harness.Driver.Firing.{after_error, trigger_error}
use nova_harness.Driver.History.{IsSound, trigger_all-IsSound, trigger_all_terminal}
use nova_harness.Driver.Progress.{trigger_all-goes_on}
use nova_harness.Machine.{
  OrchestrationStateMachine, RunEvent, RunState, awaiting_approval, cancel_run, cancelled,
  check_machine, created, key_eq, model_response_received, no_tool_needed, prompt_ready,
  run_event_eq, run_state_eq, start_run, succeeded, verification_passed,
}
use nova_harness.Machine.Defaults.{default_machine, default_machine-accepted}
use nova_harness.Machine.Valid.{IsValid, check_machine_iff}

abbrev machine : OrchestrationStateMachine
machine = default_machine (codes "m")

abbrev driver : StateDriver
driver = default_driver machine

abbrev calls : Calls
calls =
    (start_run, none)
    ∷ (prompt_ready, none)
    ∷ (start_run, none)
    ∷ (model_response_received, none)
    ∷ (no_tool_needed, none)
    ∷ (verification_passed, none)
    ∷ []

machine-IsValid : IsValid machine
machine-IsValid =
    ((check_machine_iff machine machine).0 (
      default_machine-accepted (codes "m") (unfold run_texts in refl) ∙ unfold run_texts in refl)).1

check_machine_iff_example : (check_machine machine ≡ ok machine) ↔ (
    (is_blank machine.machine_id ≡ false)
    × IsValid machine
    × (machine ≡ record machine { machine_id = strip machine.machine_id }))
check_machine_iff_example = check_machine_iff machine machine

trigger_error_example :
    (trigger driver verification_passed none).1
    ≡ after_error driver verification_passed none
        (no_transition created verification_passed (available_events driver))
trigger_error_example =
    trigger_error driver verification_passed none
      {x = no_transition created verification_passed (available_events driver)}
      (unfold run_env in refl)

trigger_all-IsSound_example : IsSound created (trigger_all driver calls)
trigger_all-IsSound_example = trigger_all-IsSound created driver calls refl

abbrev done : StateDriver
done = record driver { current_state_id = succeeded }

trigger_all_terminal_example : trigger_all done calls ≡ done
trigger_all_terminal_example = trigger_all_terminal done calls (unfold run_env in refl)

trigger_all-goes_on_example :
    let d = trigger_all driver ((start_run, none) ∷ []) in
    (event : RunEvent) × (s : RunState) × (mem? event (available_events d) ≡ true)
    × ((trigger d event none).0 ≡ ok s)
trigger_all-goes_on_example =
    trigger_all-goes_on machine ((start_run, none) ∷ []) machine-IsValid (unfold run_env in refl)
      (unfold run_env in refl)

success_needs_example :
    Crossing has_started start_run (run_default (codes "m") calls).history
    × Crossing has_responded model_response_received (run_default (codes "m") calls).history
    × Crossing has_succeeded verification_passed (run_default (codes "m") calls).history
success_needs_example = success_needs (codes "m") calls (unfold run_env in refl)

default_live_example :
    let d = at_state (codes "m") awaiting_approval [] in
    ((trigger_all d (without_results (way_to_success awaiting_approval))).current_state_id
      ≡ succeeded)
    × ((trigger d cancel_run none).0 ≡ ok cancelled)
default_live_example = default_live (codes "m") awaiting_approval [] (unfold run_env in refl)
