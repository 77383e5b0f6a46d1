-- ===== src/Machine/Valid.antt =====
-- What the validators of models/orchestration_state_machine.py establish.
use nova_harness.Prelude.{
  Distinct, any?-false, any?-false_of, ap, arith, false, first_repeat_iff, is_blank, map, mem?,
  nat_eq, ok, required, required-ok, required_solid, strip, sym, text_eq, true, ◌↔◌, ◌∙◌, ◌≡◌,
}
use nova_harness.Machine.{
  OrchestrationStateMachine, RunState, check_machine, initial_state_not_terminal, is_dead_end, key,
  key_eq, machine_id_empty, no_duplicate_transition_pairs, non_terminal_states_have_outgoing,
  run_event_eq, run_state_eq, states_with_outgoing, unique_terminal_states, used_states,
}

-- A state machine that the validators accept.
pub record IsValid (m : OrchestrationStateMachine) : Type 0 where
  pub starts_open : mem? m.initial_state m.terminal_states ≡ false
  pub terminals_differ : Distinct m.terminal_states
  pub deterministic : Distinct (map key m.transitions)
  pub goes_on :
      (s : RunState)
      → mem? s (used_states m) ≡ true
      → mem? s m.terminal_states ≡ false
      → mem? s (states_with_outgoing m) ≡ true

module _ (m : OrchestrationStateMachine) where
  unique_terminal_states-ok : (unique_terminal_states m ≡ ok tt) ↔ Distinct m.terminal_states
  unfolding unique_terminal_states
  unique_terminal_states-ok =
      let (sound, complete) = first_repeat_iff m.terminal_states in
      ((λ h. sound (ground arith)), (λ d. rw (complete d)))

  no_duplicate_transition_pairs-ok :
      (no_duplicate_transition_pairs m ≡ ok tt) ↔ Distinct (map key m.transitions)
  unfolding no_duplicate_transition_pairs
  no_duplicate_transition_pairs-ok =
      let (sound, complete) = first_repeat_iff (map key m.transitions) in
      ((λ h. sound (ground arith)), (λ d. rw (complete d, no_duplicate_transition_pairs)))

  non_terminal_states_have_outgoing-ok : (non_terminal_states_have_outgoing m ≡ ok tt) ↔ (
      (s : RunState)
      → mem? s (used_states m) ≡ true
      → mem? s m.terminal_states ≡ false
      → mem? s (states_with_outgoing m) ≡ true)
  unfolding non_terminal_states_have_outgoing is_dead_end
  non_terminal_states_have_outgoing-ok = (
    (λ h s used live.
        ground (arith, any?-false (is_dead_end m) (used_states m) s (ground arith) used)),
    (λ h. rw (any?-false_of (is_dead_end m) (used_states m) (λ s used. ground (arith, h s used)))),
  )

  -- The checks after the one of the id, in the order in which they are made.
  checks_pass :
      {m' : OrchestrationStateMachine}
      → check_machine m ≡ ok m'
      → (required machine_id_empty m.machine_id ≡ ok m'.machine_id)
        × (m' ≡ record m { machine_id = m'.machine_id })
        × (mem? m.initial_state m.terminal_states ≡ false)
        × (unique_terminal_states m ≡ ok tt)
        × (no_duplicate_transition_pairs m ≡ ok tt)
        × (non_terminal_states_have_outgoing m ≡ ok tt)
  unfolding check_machine initial_state_not_terminal
  checks_pass h = ground arith

  checks_pass_of :
      is_blank m.machine_id ≡ false
      → IsValid m
      → check_machine m ≡ ok (record m { machine_id = strip m.machine_id })
  unfolding check_machine initial_state_not_terminal
  checks_pass_of named valid = ground (
    arith,
    required_solid machine_id_empty m.machine_id named,
    unique_terminal_states-ok.1 valid.terminals_differ,
    no_duplicate_transition_pairs-ok.1 valid.deterministic,
    non_terminal_states_have_outgoing-ok.1 valid.goes_on,
    valid.starts_open,
  )

-- The validators accept a machine exactly when its id is not blank, no terminal state stands twice,
-- the initial state is not terminal, no two transitions share a state and an event, and every used
-- state that is not terminal has a transition; the instance then differs by the stripped id alone.
pub check_machine_iff :
    (m m' : OrchestrationStateMachine)
    → (check_machine m ≡ ok m') ↔ (
        (is_blank m.machine_id ≡ false)
        × IsValid m
        × (m' ≡ record m { machine_id = strip m.machine_id }))
check_machine_iff m m' = (
  (λ h.
      let (named, same, starts, terminals, pairs, outgoing) = checks_pass m h in
      let (not_blank, stripped) = required-ok machine_id_empty m.machine_id named in
      (
        not_blank,
        record {
          starts_open = starts;
          terminals_differ = (unique_terminal_states-ok m).0 terminals;
          deterministic = (no_duplicate_transition_pairs-ok m).0 pairs;
          goes_on = (non_terminal_states_have_outgoing-ok m).0 outgoing;
        },
        same ∙ ap (λ i. record m { machine_id = i }) stripped,
      )),
  (λ (named, valid, same). checks_pass_of m named valid ∙ ap ok (sym same)),
)
