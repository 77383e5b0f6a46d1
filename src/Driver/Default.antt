-- ===== src/Driver/Default.antt =====
-- Runs of a driver over the default machine of models/orchestration_state_machine.py.
use nova_harness.Prelude.{
  Bool, Bool-cases, List, Memᴰ, Option, Text, [], ap, arith, codes, false, inl, inr, keep, lookup,
  map, mem?, nat_eq, none, ok, refl, some, subst, text_eq, true, ◌++◌, ◌↔◌, ◌∙◌, ◌∷◌, ◌≡◌, ◌≢◌,
}
use nova_harness.Driver.{
  StateDriver, TransitionRecord, allowed_record, default_driver, denies, first_denied,
  given_or_empty, is_terminal, matches, take_transition, trigger, trigger_all,
}
use nova_harness.Driver.History.{Entry, Replays, trigger_all-IsSound, trigger_all-machine}
use nova_harness.Machine.{
  RunEvent, RunEvent-discrete, RunState, RunState-discrete, approval_granted, assembling_prompt,
  awaiting_approval, cancel_run, cancelled, created, failed, key_eq, model_completed, model_pending,
  model_response_received, no_tool_needed, prompt_ready, retry_allowed, retry_pending, run_event_eq,
  run_state_eq, start_run, succeeded, tool_approved_or_not_required, tool_completed, tool_pending,
  tool_running, verification_passed, verifying,
}
use nova_harness.Machine.Defaults.{default_machine, next, next_of_listed}

abbrev pub Calls : Type 0
Calls = List (RunEvent × Option (List (Text × Bool)))

abbrev pub run_default : Text → Calls → StateDriver
run_default machine_id events = trigger_all (default_driver (default_machine machine_id)) events

-- An allowed entry for the event, from a state outside of `past` to one in it.
pub record Crossing (past : RunState → Bool) (event : RunEvent) (history : List TransitionRecord)
    : Type 0 where
  pub entry : TransitionRecord
  pub listed : Memᴰ entry history
  pub hears : entry.event ≡ event
  pub allowed : entry.decision ≡ codes "allowed"
  pub before : past entry.from_state ≡ false
  pub after : past entry.to_state ≡ true

module _ (machine_id : Text) (past : RunState → Bool) (event : RunEvent)
    (only_by : (s : RunState) (x : RunEvent) (u : RunState)
      → next s x ≡ some u
      → past s ≡ false
      → past u ≡ true
      → x ≡ event) where
  -- An entry of a sound history that leads into `past` is a crossing on the event.
  Entry-crosses :
      (r : TransitionRecord) (history : List TransitionRecord)
      → Entry (default_machine machine_id) r
      → past r.from_state ≡ false
      → past r.to_state ≡ true
      → Crossing past event (r ∷ history)
  Entry-crosses r history (inl (f, allowed)) outside inside = record {
    entry = r;
    listed = Memᴰ.head refl;
    hears =
        only_by r.from_state r.event r.to_state
          (cc (next_of_listed machine_id f.listed, f.leaves, f.hears, f.enters)) outside inside;
    allowed = allowed;
    before = outside;
    after = inside;
  }
  Entry-crosses r history (inr (name, stays, _, _)) outside inside =
      cc (ap past stays, outside, inside)

  -- A sound history from outside of `past` to a state in it crosses on the event.
  history_crosses :
      (s u : RunState) (history : List TransitionRecord)
      → Replays (default_machine machine_id) s history u
      → past s ≡ false
      → past u ≡ true
      → Crossing past event history
  history_crosses s u [] h outside inside = cc (ap past h)
  history_crosses s u (r ∷ history) h outside inside = elim (Bool-cases (past r.to_state)) [
    | inl entered ↦ Entry-crosses r history h.1 (ap past h.0 ∙ outside) entered
    | inr still ↦ later (history_crosses r.to_state u history h.2 still inside)
  ]
    where
      later : Crossing past event history → Crossing past event (r ∷ history)
      later c = record {
        entry = c.entry;
        listed = Memᴰ.tail c.listed;
        hears = c.hears;
        allowed = c.allowed;
        before = c.before;
        after = c.after;
      }

-- The states that come after the start, a model response and a passed verification.
abbrev pub has_started : RunState → Bool
has_started created = false
has_started cancelled = false
has_started _ = true

abbrev pub has_responded : RunState → Bool
has_responded created = false
has_responded assembling_prompt = false
has_responded model_pending = false
has_responded cancelled = false
has_responded _ = true

abbrev pub has_succeeded : RunState → Bool
has_succeeded succeeded = true
has_succeeded _ = false

has_started_by :
    (s : RunState) (x : RunEvent) (u : RunState)
    → next s x ≡ some u
    → has_started s ≡ false
    → has_started u ≡ true
    → x ≡ start_run
has_started_by s x u h p q = ground arith

has_responded_by :
    (s : RunState) (x : RunEvent) (u : RunState)
    → next s x ≡ some u
    → has_responded s ≡ false
    → has_responded u ≡ true
    → x ≡ model_response_received
has_responded_by s x u h p q = ground arith

succeeded_by :
    (s : RunState) (x : RunEvent) (u : RunState)
    → next s x ≡ some u
    → has_succeeded s ≡ false
    → has_succeeded u ≡ true
    → x ≡ verification_passed
succeeded_by s x u h p q = ground arith

-- A run of the default machine that ends in `succeeded`, whatever calls were made, has in its
-- history an allowed `start_run`, an allowed `model_response_received` and, into `succeeded`, an
-- allowed `verification_passed`.
pub success_needs :
    (machine_id : Text) (events : Calls)
    → (run_default machine_id events).current_state_id ≡ succeeded
    → Crossing has_started start_run (run_default machine_id events).history
      × Crossing has_responded model_response_received (run_default machine_id events).history
      × Crossing has_succeeded verification_passed (run_default machine_id events).history
success_needs machine_id events done =
    let d : StateDriver = run_default machine_id events in
    let same : d.machine ≡ default_machine machine_id =
      trigger_all-machine (default_driver (default_machine machine_id)) events in
    let sound : Replays (default_machine machine_id) created d.history succeeded =
      subst (λ m. Replays m created d.history succeeded) same
        (subst (λ u. Replays d.machine created d.history u) done
          (trigger_all-IsSound created (default_driver (default_machine machine_id)) events
            refl)) in
    (
      history_crosses machine_id has_started start_run has_started_by created succeeded d.history
          sound refl refl,
      history_crosses machine_id has_responded model_response_received has_responded_by created
          succeeded d.history sound refl refl,
      history_crosses machine_id has_succeeded verification_passed succeeded_by created succeeded
          d.history sound refl refl,
    )

-- The events that take a run from a state to `succeeded`.
abbrev pub way_to_success : RunState → List RunEvent
way_to_success created =
    start_run ∷ prompt_ready ∷ model_response_received ∷ no_tool_needed ∷ verification_passed ∷ []
way_to_success assembling_prompt =
    prompt_ready ∷ model_response_received ∷ no_tool_needed ∷ verification_passed ∷ []
way_to_success model_pending = model_response_received ∷ no_tool_needed ∷ verification_passed ∷ []
way_to_success model_completed = no_tool_needed ∷ verification_passed ∷ []
way_to_success tool_pending =
    tool_approved_or_not_required ∷ tool_completed ∷ verification_passed ∷ []
way_to_success tool_running = tool_completed ∷ verification_passed ∷ []
way_to_success verifying = verification_passed ∷ []
way_to_success awaiting_approval = approval_granted ∷ tool_completed ∷ verification_passed ∷ []
way_to_success retry_pending =
    retry_allowed ∷ prompt_ready ∷ model_response_received ∷ no_tool_needed ∷ verification_passed
    ∷ []
way_to_success _ = []

abbrev pub without_results : List RunEvent → Calls
without_results events = map (λ e. (e, none)) events

abbrev pub at_state : Text → RunState → List TransitionRecord → StateDriver
at_state machine_id s history = record {
  machine = default_machine machine_id;
  current_state_id = s;
  history = history;
}

unfoldable pub guard_env : Unit {0}
unfolding trigger take_transition default_machine mem? matches keep first_denied denies is_terminal
    RunState-discrete RunEvent-discrete
guard_env = tt

unfoldable pub run_env : Unit {0}
unfolding guard_env trigger_all lookup given_or_empty
run_env = tt

-- In the default machine each state that is not terminal has a way to `succeeded` and, on
-- `cancel_run`, one step to `cancelled`.
pub default_live :
    (machine_id : Text) (s : RunState) (history : List TransitionRecord)
    → is_terminal (at_state machine_id s history) ≡ false
    → let after =
        trigger_all (at_state machine_id s history) (without_results (way_to_success s)) in
      (after.current_state_id ≡ succeeded)
      × ((trigger (at_state machine_id s history) cancel_run none).0 ≡ ok cancelled)
unfolding run_env
default_live machine_id succeeded history h = cc
default_live machine_id failed history h = cc
default_live machine_id cancelled history h = cc
default_live machine_id _ history h = (refl, refl)

pub approval_moves :
    (machine_id : Text) (history : List TransitionRecord) (results : Option (List (Text × Bool)))
    → lookup (codes "approval_granted_if_required") (given_or_empty results) ≢ some false
    → let d = at_state machine_id awaiting_approval history in
      trigger d approval_granted results ≡ (
        ok tool_running,
        at_state machine_id tool_running (
            history
            ++ allowed_record d approval_granted tool_running (given_or_empty results) ∷ []),
      )
unfolding guard_env allowed_record
approval_moves machine_id history results undenied = ground arith

-- A driver of the default machine that awaits approval moves to `tool_running` on `approval_granted`
-- exactly if the approval guard is not given a false result.
pub approval_guarded :
    (machine_id : Text) (history : List TransitionRecord) (results : Option (List (Text × Bool)))
    → ((trigger (at_state machine_id awaiting_approval history) approval_granted results).0
        ≡ ok tool_running)
      ↔ (lookup (codes "approval_granted_if_required") (given_or_empty results) ≢ some false)
unfolding guard_env
approval_guarded machine_id history results =
    ((λ moves denied. ground arith), (λ undenied. ground arith))

-- A driver of the default machine in `retry_pending` moves to `assembling_prompt` on `retry_allowed`
-- exactly if the guard of the retry budget is not given a false result.
pub retry_guarded :
    (machine_id : Text) (history : List TransitionRecord) (results : Option (List (Text × Bool)))
    → ((trigger (at_state machine_id retry_pending history) retry_allowed results).0
        ≡ ok assembling_prompt)
      ↔ (lookup (codes "retry_budget_available") (given_or_empty results) ≢ some false)
unfolding guard_env
retry_guarded machine_id history results =
    ((λ moves denied. ground arith), (λ undenied. ground arith))
