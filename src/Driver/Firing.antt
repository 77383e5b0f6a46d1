-- ===== src/Driver/Firing.antt =====
-- `trigger` against the transition relation of the machine.
use nova_harness.Prelude.{
  All, Bool, Bool-cases, Distinct-map_injective, List, Memᴰ, Option, Text, [], ap, arith, err,
  false, inl, inr, keep_head, keep_some, lookup, nat_eq, none, ok, refl, some, sym, text_eq, true,
  ◌&&◌, ◌++◌, ◌==◌, ◌↔◌, ◌∙◌, ◌∷◌, ◌≡◌, ◌≢◌,
}
use nova_harness.Driver.{
  StateDriver, TriggerError, allowed_record, available_events, blocked_record, denies, first_denied,
  given_or_empty, guard_rejected, in_terminal_state, is_terminal, matches, no_transition,
  take_transition, trigger,
}
use nova_harness.Machine.{
  OrchestrationStateMachine, RunEvent, RunState, TransitionGuard, TransitionRule, key, key_eq,
  run_event_eq, run_state_eq,
}
use nova_harness.Machine.Valid.{IsValid}

-- No guard of the list is given a false result.
abbrev pub Undenied : List (Text × Bool) → List TransitionGuard → Type 0
Undenied results guards = All (λ g. lookup g.name results ≢ some false) guards

first_denied-Undenied :
    (results : List (Text × Bool)) (guards : List TransitionGuard)
    → first_denied results guards ≡ none
    → Undenied results guards
unfolding first_denied denies
first_denied-Undenied results [] h = tt
first_denied-Undenied results (g ∷ guards) h =
    ((λ denied. ground arith), first_denied-Undenied results guards (ground arith))

first_denied_of :
    (results : List (Text × Bool)) (guards : List TransitionGuard)
    → Undenied results guards
    → first_denied results guards ≡ none
unfolding first_denied denies
first_denied_of results [] h = refl
first_denied_of results (g ∷ guards) h =
    let rest = first_denied_of results guards h.1 in let held = h.0 in ground arith

-- The machine has a rule that leaves `s` on `event` for `u`, and no guard of it is denied.
pub record Fires (m : OrchestrationStateMachine) (resolved_results : List (Text × Bool))
    (s : RunState) (event : RunEvent) (u : RunState) : Type 0 where
  pub rule : TransitionRule
  pub listed : Memᴰ rule m.transitions
  pub leaves : rule.from_state ≡ s
  pub hears : rule.event ≡ event
  pub enters : rule.to_state ≡ u
  pub undenied : Undenied resolved_results rule.guards

module _ (d : StateDriver) (event : RunEvent) where
  matches_head :
      {t : TransitionRule} {ts : List TransitionRule}
      → matches d event ≡ t ∷ ts
      → Memᴰ t d.machine.transitions × (key t ≡ (d.current_state_id, event))
  unfolding matches
  matches_head {t} h =
      let (listed, fits) =
        keep_head (λ t. t.from_state == d.current_state_id && t.event == event)
          d.machine.transitions h in
      (listed, ground arith)

  matches_some :
      (t : TransitionRule)
      → Memᴰ t d.machine.transitions
      → t.from_state ≡ d.current_state_id
      → t.event ≡ event
      → (u : TransitionRule) × (us : List TransitionRule) × (matches d event ≡ u ∷ us)
  unfolding matches
  matches_some t listed leaves hears =
      keep_some (λ t. t.from_state == d.current_state_id && t.event == event) d.machine.transitions
        listed (ground arith)

  module _ (results : Option (List (Text × Bool))) where
    abbrev pub resolved_results : List (Text × Bool)
    resolved_results = given_or_empty results

    pub trigger_terminal :
        is_terminal d ≡ true
        → trigger d event results ≡ (err (in_terminal_state event d.current_state_id), d)
    unfolding trigger
    trigger_terminal h = rw h

    trigger_unmatched :
        is_terminal d ≡ false
        → matches d event ≡ []
        → trigger d event results
          ≡ (err (no_transition d.current_state_id event (available_events d)), d)
    unfolding trigger
    trigger_unmatched h e = ground arith

    trigger_matched :
        {t : TransitionRule} {ts : List TransitionRule}
        → is_terminal d ≡ false
        → matches d event ≡ t ∷ ts
        → trigger d event results ≡ take_transition d event resolved_results t
    unfolding trigger
    trigger_matched h e = ground arith

    -- The first branch that `trigger` takes, with what it found there.
    pub data Branch : Type 0 where
      terminal : is_terminal d ≡ true → Branch
      unmatched : is_terminal d ≡ false → matches d event ≡ [] → Branch
      matched :
          (t : TransitionRule) (ts : List TransitionRule)
          → is_terminal d ≡ false
          → matches d event ≡ t ∷ ts
          → Branch

    branch : Branch
    branch = elim (Bool-cases (is_terminal d)) [
      | inl stops ↦ terminal stops
      | inr runs ↦ of_matches (matches d event) refl runs
    ]
      where
        of_matches :
            (ts : List TransitionRule) → matches d event ≡ ts → is_terminal d ≡ false → Branch
        of_matches [] e runs = unmatched runs e
        of_matches (t ∷ ts) e runs = matched t ts runs e

    abbrev pub moved_driver : RunState → StateDriver
    moved_driver s = record d {
      current_state_id = s;
      history = d.history ++ allowed_record d event s resolved_results ∷ [];
    }

    take_transition_fires :
        (t : TransitionRule) {s : RunState}
        → (take_transition d event resolved_results t).0 ≡ ok s
        → (first_denied resolved_results t.guards ≡ none)
          × (t.to_state ≡ s)
          × ((take_transition d event resolved_results t).1 ≡ moved_driver s)
    unfolding take_transition
    take_transition_fires t h = ground arith

    -- A call that returns has moved the driver along a rule, and recorded it.
    pub trigger-Fires :
        {s : RunState}
        → (trigger d event results).0 ≡ ok s
        → (is_terminal d ≡ false)
          × Fires d.machine resolved_results d.current_state_id event s
          × ((trigger d event results).1 ≡ moved_driver s)
    trigger-Fires {s} h = elim branch [
      | terminal stops ↦ cc (trigger_terminal stops)
      | unmatched runs e ↦ cc (trigger_unmatched runs e)
      | matched t ts runs e ↦
          let same = trigger_matched runs e in
          let (undenied, enters, after) = take_transition_fires t (ap (λ r. r.0) (sym same) ∙ h) in
          let (listed, fits) = matches_head e in
          (
            runs,
            record {
              rule = t;
              listed = listed;
              leaves = ap (λ k. k.0) fits;
              hears = ap (λ k. k.1) fits;
              enters = enters;
              undenied = first_denied-Undenied resolved_results t.guards undenied;
            },
            ap (λ r. r.1) same ∙ after,
          )
    ]

    take_transition_of :
        (t : TransitionRule)
        → first_denied resolved_results t.guards ≡ none
        → take_transition d event resolved_results t ≡ (ok t.to_state, moved_driver t.to_state)
    unfolding take_transition
    take_transition_of t undenied = ground arith

    pub trigger_iff :
        {s : RunState}
        → IsValid d.machine
        → ((trigger d event results).0 ≡ ok s)
          ↔ ((is_terminal d ≡ false) × Fires d.machine resolved_results d.current_state_id event s)
    trigger_iff {s} valid = ((λ h. let (runs, fires, _) = trigger-Fires h in (runs, fires)), back)
      where
        back :
            (is_terminal d ≡ false) × Fires d.machine resolved_results d.current_state_id event s
            → (trigger d event results).0 ≡ ok s
        back (runs, f) =
            let (t, ts, e) = matches_some f.rule f.listed f.leaves f.hears in
            let (listed, fits) = matches_head e in
            let same : t ≡ f.rule =
              Distinct-map_injective key d.machine.transitions valid.deterministic listed f.listed
                (cc (fits, f.leaves, f.hears)) in
            let undenied : first_denied resolved_results t.guards ≡ none =
              rw same (first_denied_of resolved_results f.rule.guards f.undenied) in
            ap (λ r. r.0) (trigger_matched runs e ∙ take_transition_of t undenied)
            ∙ ap ok (ap (λ u. u.to_state) same ∙ f.enters)

    -- What an exception leaves: a rejecting guard is recorded, and nothing else changes.
    abbrev pub after_error : TriggerError → StateDriver
    after_error (guard_rejected name s u e) = record d {
      history = d.history ++ blocked_record d event (record { name = name; description = [] }) ∷ [];
    }
    after_error _ = d

    take_transition_error :
        (t : TransitionRule) {x : TriggerError}
        → (take_transition d event resolved_results t).0 ≡ err x
        → (take_transition d event resolved_results t).1 ≡ after_error x
    unfolding take_transition
    take_transition_error t {x} h = ground arith

    -- A call that raises keeps the machine and the current state. It adds one record, that of the
    -- rejected transition, if a guard rejected it, and no record otherwise.
    pub trigger_error :
        {x : TriggerError}
        → (trigger d event results).0 ≡ err x
        → (trigger d event results).1 ≡ after_error x
    trigger_error {x} h = elim branch [
      | terminal stops ↦ rest (trigger_terminal stops) refl
      | unmatched runs e ↦ rest (trigger_unmatched runs e) refl
      | matched t ts runs e ↦
          let same = trigger_matched runs e in
          ap (λ r. r.1) same ∙ take_transition_error t (ap (λ r. r.0) (sym same) ∙ h)
    ]
      where
        rest :
            {y : TriggerError}
            → trigger d event results ≡ (err y, d)
            → after_error y ≡ d
            → (trigger d event results).1 ≡ after_error x
        rest {y} same kept =
            let is_x : y ≡ x = cc (ap (λ r. r.0) same, h) in
            ap (λ r. r.1) same ∙ sym kept ∙ ap after_error is_x
