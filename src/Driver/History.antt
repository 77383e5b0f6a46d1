-- ===== src/Driver/History.antt =====
-- The history of a driver, and what sequences of `trigger` calls do to it.
use nova_harness.Prelude.{
  Bool, List, Option, Result-cases, Text, [], ap, codes, false, inl, inr, refl, sym, true, ◌++◌,
  ◌∙◌, ◌∷◌, ◌≡◌, ◌⊎◌,
}
use nova_harness.Driver.{
  StateDriver, TransitionRecord, TriggerError, allowed_record, blocked_record, given_or_empty,
  guard_rejected, in_terminal_state, is_terminal, no_transition, trigger, trigger_all,
}
use nova_harness.Driver.Firing.{
  Fires, after_error, moved_driver, trigger_error, trigger-Fires, trigger_terminal,
}
use nova_harness.Machine.{OrchestrationStateMachine, RunEvent, RunState, created}

-- The entry stands for a move along a rule of the machine, or for a rejected one.
abbrev pub Entry : OrchestrationStateMachine → TransitionRecord → Type 0
Entry m r =
    Fires m r.guard_results r.from_state r.event r.to_state × (r.decision ≡ codes "allowed")
    ⊎ ((name : Text) × (r.to_state ≡ r.from_state)
        × (r.guard_results ≡ (name, false) ∷ [])
        × (r.decision ≡ codes "blocked by guard: " ++ name))

-- The history leads from `s` to `u`, each entry from where the one before it ended.
abbrev pub Replays :
    OrchestrationStateMachine → RunState → List TransitionRecord → RunState → Type 0
Replays m s [] u = s ≡ u
Replays m s (r ∷ history) u = (r.from_state ≡ s) × Entry m r × Replays m r.to_state history u

Replays-append :
    (m : OrchestrationStateMachine) (s u : RunState) (history : List TransitionRecord)
    (r : TransitionRecord)
    → Replays m s history u
    → r.from_state ≡ u
    → Entry m r
    → Replays m s (history ++ r ∷ []) r.to_state
Replays-append m s u [] r h e entry = (e ∙ sym h, entry, refl)
Replays-append m s u (x ∷ history) r h e entry =
    (h.0, h.1, Replays-append m x.to_state u history r h.2 e entry)

abbrev pub IsSound : RunState → StateDriver → Type 0
IsSound s d = Replays d.machine s d.history d.current_state_id

module _ (s : RunState) (d : StateDriver) (event : RunEvent)
    (results : Option (List (Text × Bool))) where
  after_error-IsSound : IsSound s d → (x : TriggerError) → IsSound s (after_error d event results x)
  unfolding blocked_record
  after_error-IsSound h (in_terminal_state e u) = h
  after_error-IsSound h (no_transition u e available) = h
  after_error-IsSound h (guard_rejected name u v e) =
      Replays-append d.machine s d.current_state_id d.history
        (blocked_record d event (record { name = name; description = [] })) h refl
        (inr (name, refl, refl, refl))

  moved_driver-IsSound :
      (u : RunState)
      → Fires d.machine (given_or_empty results) d.current_state_id event u
      → IsSound s d
      → IsSound s (moved_driver d event results u)
  unfolding allowed_record
  moved_driver-IsSound u fires h =
      Replays-append d.machine s d.current_state_id d.history
        (allowed_record d event u (given_or_empty results)) h refl (inl (fires, refl))

  -- Whether a call returns or raises, the history still leads from `s` to the current state, each
  -- entry along a rule of the machine or marking a transition that a guard blocked.
  pub trigger-IsSound : IsSound s d → IsSound s (trigger d event results).1
  trigger-IsSound h = elim (Result-cases (trigger d event results).0) [
    | inl (u, e) ↦
        let (_, fires, after) = trigger-Fires d event results e in
        rw after (moved_driver-IsSound u fires h)
    | inr (x, e) ↦ rw (trigger_error d event results e) (after_error-IsSound h x)
  ]

  trigger-machine : (trigger d event results).1.machine ≡ d.machine
  trigger-machine = elim (Result-cases (trigger d event results).0) [
    | inl (u, e) ↦ ap (λ c. c.machine) (trigger-Fires d event results e).2
    | inr (x, e) ↦ ap (λ c. c.machine) (trigger_error d event results e) ∙ kept x
  ]
    where
      kept : (x : TriggerError) → (after_error d event results x).machine ≡ d.machine
      kept (in_terminal_state _ _) = refl
      kept _ = refl

-- However a client triggers events, the history stays sound.
pub trigger_all-IsSound :
    (s : RunState) (d : StateDriver) (events : List (RunEvent × Option (List (Text × Bool))))
    → IsSound s d
    → IsSound s (trigger_all d events)
unfolding trigger_all
trigger_all-IsSound s d [] h = h
trigger_all-IsSound s d ((event, results) ∷ events) h =
    trigger_all-IsSound s (trigger d event results).1 events (trigger-IsSound s d event results h)

pub trigger_all-machine :
    (d : StateDriver) (events : List (RunEvent × Option (List (Text × Bool))))
    → (trigger_all d events).machine ≡ d.machine
unfolding trigger_all
trigger_all-machine d [] = refl
trigger_all-machine d ((event, results) ∷ events) =
    trigger_all-machine (trigger d event results).1 events ∙ trigger-machine created d event results

-- In a terminal state every call raises and leaves the driver as it was, so no sequence of calls
-- changes it.
pub trigger_all_terminal :
    (d : StateDriver) (events : List (RunEvent × Option (List (Text × Bool))))
    → is_terminal d ≡ true
    → trigger_all d events ≡ d
unfolding trigger_all
trigger_all_terminal d [] h = refl
trigger_all_terminal d ((event, results) ∷ events) h =
    rw (trigger_terminal d event results h) (trigger_all_terminal d events h)
