-- ===== src/Driver.antt =====
-- harness/state_driver.py: the driver that runs a state machine and keeps a history. A method that
-- mutates the driver returns the new one, also beside an exception; the `timestamp` of a record is
-- the wall clock's and is left out.
pub mod History
pub mod Firing
pub mod Progress
pub mod Default
use nova_harness.Prelude.{
  Bool, List, Option, Result, Text, [], codes, err, false, if◌then◌else◌, keep, list_repr, lookup,
  map, mem?, nat_eq, none, not, ok, some, text_eq, ◌&&◌, ◌++◌, ◌==◌, ◌∷◌,
}
use nova_harness.Machine.{
  OrchestrationStateMachine, RunEvent, RunState, TransitionGuard, TransitionRule, created, key_eq,
  run_event_eq, run_event_value, run_state_eq, run_state_value,
}

pub record TransitionRecord : Type 0 where
  pub from_state : RunState
  pub event : RunEvent
  pub to_state : RunState
  pub guard_results : List (Text × Bool)
  pub decision : Text

pub record StateDriver : Type 0 where
  pub machine : OrchestrationStateMachine
  pub current_state_id : RunState
  pub history : List TransitionRecord

-- The ValueErrors of `trigger`, with the values that their messages show.
pub data TriggerError : Type 0 where
  in_terminal_state : RunEvent → RunState → TriggerError
  no_transition : RunState → RunEvent → List RunEvent → TriggerError
  guard_rejected : Text → RunState → RunState → RunEvent → TriggerError

-- `StateDriver()`
abbrev pub default_driver : OrchestrationStateMachine → StateDriver
default_driver m = record { machine = m; current_state_id = created; history = [] }

module _ (d : StateDriver) where
  unfoldable pub is_terminal : Bool
  is_terminal = mem? d.current_state_id d.machine.terminal_states

  unfoldable pub available_events : List RunEvent
  unfolding is_terminal
  available_events =
      if is_terminal
      then []
      else map (λ t. t.event) (keep (λ t. t.from_state == d.current_state_id) d.machine.transitions)

  unfoldable pub matches : RunEvent → List TransitionRule
  matches event =
      keep (λ t. t.from_state == d.current_state_id && t.event == event) d.machine.transitions

-- The guard's name is in `resolved`, with a false value.
unfoldable pub denies : List (Text × Bool) → TransitionGuard → Bool
denies resolved g = elim (lookup g.name resolved) [ none ↦ false | some held ↦ not held ]

-- The first guard that the loop of `trigger` stops at.
unfoldable pub first_denied : List (Text × Bool) → List TransitionGuard → Option TransitionGuard
first_denied resolved [] = none
first_denied resolved (g ∷ guards) =
    if denies resolved g then some g else first_denied resolved guards

-- `guard_results or {}`
unfoldable pub given_or_empty : Option (List (Text × Bool)) → List (Text × Bool)
given_or_empty none = []
given_or_empty (some results) = results

unfoldable pub allowed_record :
    StateDriver → RunEvent → RunState → List (Text × Bool) → TransitionRecord
allowed_record d event to_state resolved = record {
  from_state = d.current_state_id;
  event = event;
  to_state = to_state;
  guard_results = resolved;
  decision = codes "allowed";
}

unfoldable pub blocked_record : StateDriver → RunEvent → TransitionGuard → TransitionRecord
blocked_record d event g = record {
  from_state = d.current_state_id;
  event = event;
  to_state = d.current_state_id;
  guard_results = (g.name, false) ∷ [];
  decision = codes "blocked by guard: " ++ g.name;
}

-- `trigger` from `transition = matches[0]` on.
unfoldable pub take_transition :
    StateDriver
    → RunEvent
    → List (Text × Bool)
    → TransitionRule
    → Result TriggerError RunState × StateDriver
unfolding allowed_record blocked_record
take_transition d event resolved transition = elim (first_denied resolved transition.guards) [
  | some g ↦ (
    err (guard_rejected g.name d.current_state_id transition.to_state event),
    record d { history = d.history ++ blocked_record d event g ∷ [] },
  )
  | none ↦ (
    ok transition.to_state,
    record d {
      current_state_id = transition.to_state;
      history = d.history ++ allowed_record d event transition.to_state resolved ∷ [];
    },
  )
]

unfoldable pub trigger :
    StateDriver
    → RunEvent
    → Option (List (Text × Bool))
    → Result TriggerError RunState × StateDriver
unfolding is_terminal
trigger d event guard_results =
    if is_terminal d
    then (err (in_terminal_state event d.current_state_id), d)
    else elim (matches d event) [
      | [] ↦ (err (no_transition d.current_state_id event (available_events d)), d)
      | transition ∷ _ ↦ take_transition d event (given_or_empty guard_results) transition
    ]

-- A client that triggers a sequence of events and goes on after each exception.
unfoldable pub trigger_all :
    StateDriver → List (RunEvent × Option (List (Text × Bool))) → StateDriver
trigger_all d [] = d
trigger_all d ((event, results) ∷ events) = trigger_all (trigger d event results).1 events

-- The text of a ValueError of `trigger`.
unfoldable pub trigger_message : TriggerError → Text
trigger_message (in_terminal_state event s) =
    codes "cannot trigger event "
    ++ (run_event_value event ++ (codes ": machine is in terminal state " ++ run_state_value s))
trigger_message (no_transition s event available) =
    codes "no transition from "
    ++ (run_state_value s
        ++ (codes " for event "
            ++ (run_event_value event
                ++ (codes "; available events: " ++ list_repr (map run_event_value available)))))
trigger_message (guard_rejected name s u event) =
    codes "guard '"
    ++ (name
        ++ (codes "' rejected transition "
            ++ (run_state_value s
                ++ (codes " -> "
                    ++ (run_state_value u ++ (codes " via " ++ run_event_value event))))))
