-- ===== src/Driver/Progress.antt =====
-- Which events a driver of harness/state_driver.py has left.
use nova_harness.Prelude.{
  Bool, List, Memᴰ, Option, Text, [], arith, false, inl, inr, keep, keep-Memᴰ, lookup, map, mem?,
  mem?-append, mem?-map, mem?-map_of, nat_eq, none, ok, refl, text_eq, true, ◌==◌, ◌∙◌, ◌∷◌, ◌≡◌,
}
use nova_harness.Driver.{
  StateDriver, TransitionRecord, available_events, default_driver, given_or_empty, is_terminal,
  trigger, trigger_all,
}
use nova_harness.Driver.Firing.{Fires, Undenied, trigger_iff}
use nova_harness.Driver.History.{Entry, IsSound, Replays, trigger_all-IsSound, trigger_all-machine}
use nova_harness.Machine.{
  OrchestrationStateMachine, RunEvent, RunState, TransitionGuard, TransitionRule, created, key_eq,
  run_event_eq, run_state_eq, states_with_outgoing, used_states,
}
use nova_harness.Machine.Valid.{IsValid}

-- The states that a sound history passes through are used by the machine.
current-used :
    (m : OrchestrationStateMachine) (s u : RunState) (history : List TransitionRecord)
    → Replays m s history u
    → mem? s (used_states m) ≡ true
    → mem? u (used_states m) ≡ true
current-used m s u [] h used = rw (← h) used
current-used m s u (r ∷ history) h used = current-used m r.to_state u history h.2 (step h.1)
  where
    target :
        Fires m r.guard_results r.from_state r.event r.to_state
        → mem? r.to_state (used_states m) ≡ true
    target f =
        let listed : mem? r.to_state (map (λ t. t.to_state) m.transitions) ≡ true =
          rw (← f.enters) (mem?-map_of (λ t. t.to_state) m.transitions f.listed) in
        unfold used_states mem? in
        ground (
          arith,
          mem?-append r.to_state (map (λ t. t.from_state) m.transitions)
              (map (λ t. t.to_state) m.transitions),
          listed,
        )

    step : Entry m r → mem? r.to_state (used_states m) ≡ true
    step (inl (f, _)) = target f
    step (inr (name, stays, _, _)) = rw (stays ∙ h.0) used

Undenied-without_results : (guards : List TransitionGuard) → Undenied (given_or_empty none) guards
unfolding lookup given_or_empty
Undenied-without_results [] = tt
Undenied-without_results (g ∷ guards) = ((λ e. cc), Undenied-without_results guards)

available_of_listed :
    (d : StateDriver) (t : TransitionRule)
    → is_terminal d ≡ false
    → Memᴰ t d.machine.transitions
    → t.from_state ≡ d.current_state_id
    → mem? t.event (available_events d) ≡ true
unfolding available_events
available_of_listed d t live listed leaves = rw live (
    mem?-map_of (λ t. t.event)
      (keep (λ t. t.from_state == d.current_state_id) d.machine.transitions)
      (keep-Memᴰ (λ t. t.from_state == d.current_state_id) d.machine.transitions listed
        (ground arith)))

go_on :
    (d : StateDriver)
    → IsValid d.machine
    → d.machine.initial_state ≡ created
    → IsSound created d
    → is_terminal d ≡ false
    → (event : RunEvent) × (s : RunState) × (mem? event (available_events d) ≡ true)
      × ((trigger d event none).0 ≡ ok s)
unfolding used_states states_with_outgoing mem? is_terminal
go_on d valid starts sound live =
    let used = current-used d.machine created d.current_state_id d.history sound (ground arith) in
    let leaves = valid.goes_on d.current_state_id used live in
    let (t, listed, from) =
      mem?-map (λ t. t.from_state) d.machine.transitions d.current_state_id leaves in
    (
      t.event,
      t.to_state,
      available_of_listed d t live listed from,
      (trigger_iff d t.event none valid).1 (
        live,
        record {
          rule = t;
          listed = listed;
          leaves = from;
          hears = refl;
          enters = refl;
          undenied = Undenied-without_results t.guards;
        },
      ),
    )

-- After any calls on a fresh driver of a valid machine, one that the client wraps for the machine's
-- initial state, the current state is terminal or `available_events` lists an event on which
-- `trigger`, with no guard results, returns.
pub trigger_all-goes_on :
    (m : OrchestrationStateMachine) (events : List (RunEvent × Option (List (Text × Bool))))
    → IsValid m
    → m.initial_state ≡ created
    → let d = trigger_all (default_driver m) events in
      is_terminal d ≡ false
      → (event : RunEvent) × (s : RunState) × (mem? event (available_events d) ≡ true)
        × ((trigger d event none).0 ≡ ok s)
trigger_all-goes_on m events valid starts live =
    let d : StateDriver = trigger_all (default_driver m) events in
    let same : d.machine ≡ m = trigger_all-machine (default_driver m) events in
    let sound : IsSound created d = trigger_all-IsSound created (default_driver m) events refl in
    go_on d (rw same valid) (rw same starts) sound live
