-- ===== src/Examples/Loops.antt =====
-- A loop that has spent its iterations.
use nova_harness.Prelude.{
  All, [], check_every, codes, false, is_blank, mem?, nat_eq, none, ok, pos, refl, required,
  run_texts, some, strip, text_eq, true, ◌↔◌, ◌∷◌, ◌≡◌,
}
use nova_harness.Loop.Checks.{
  check_loop_execution_plan, check_loop_iteration_record, check_loop_memory_snapshot,
}
use nova_harness.Loop.Envelope.{
  active_loop_has_next_action, check_running_loop, check_verified, is_unverified,
  stop_reason_aligned_with_status, terminal_statuses, verification_for_completed_cycles,
}
use nova_harness.Loop.Rules.{IsVerified, check_running_loop_iff, needs_verification}
use nova_harness.Loop.Types.{
  LoopExecutionPlan, LoopIterationRecord, LoopMemorySnapshot, LoopRuleSet, LoopStatus-discrete,
  RunningLoopContractEnvelope, build, exhausted, intake, loop_status_eq, manual, max_iterations,
  running,
}

abbrev example_loop_iteration_record : LoopIterationRecord
example_loop_iteration_record = record {
  iteration = pos 1;
  started_at = codes "2024-01-01";
  ended_at = none;
  phase_transitions = [];
  selected_task_id = none;
  actions_performed = [];
  artifacts_touched = [];
  result_summary = codes "result-summary";
  progress_delta = none;
  verification_result = some (codes "passed");
  lessons_extracted = [];
  next_suggested_step = none;
}

abbrev example_loop_memory_snapshot : LoopMemorySnapshot
example_loop_memory_snapshot = record {
  current_objective = codes "current-objective";
  active_task_id = none;
  recent_evidence = [];
  unresolved_blockers = [];
  known_failures = [];
  recent_lessons = [];
  next_action = codes "next-action";
}

abbrev example_loop_execution_plan : LoopExecutionPlan
example_loop_execution_plan = record {
  loop_id = codes "loop-id";
  run_id = none;
  session_id = none;
  max_iterations = pos 1;
  max_no_progress_iterations = pos 1;
  verification_required = true;
  update_artifacts_required = false;
  commit_policy = codes "commit-policy";
  escalation_policy = codes "escalation-policy";
}

abbrev example_loop_rule_set : LoopRuleSet
example_loop_rule_set = record {
  update_per_iteration = [];
  stop_conditions = [];
  retry_conditions = [];
  escalate_conditions = [];
  commit_conditions = [];
  feature_done_conditions = [];
  lesson_promotion_rules = [];
}

abbrev example_running_loop_contract_envelope : RunningLoopContractEnvelope
example_running_loop_contract_envelope = record {
  envelope_id = codes "envelope-id";
  status = exhausted;
  stop_reason = some max_iterations;
  phase = intake;
  goal = build;
  trigger = manual;
  objective = codes "objective";
  plan = example_loop_execution_plan;
  rules = example_loop_rule_set;
  cycles = example_loop_iteration_record ∷ example_loop_iteration_record ∷ [];
  memory = example_loop_memory_snapshot;
  created_at = codes "2024-01-01";
  updated_at = codes "2024-01-01";
}

unfoldable loop_env : Unit {0}
unfolding check_loop_iteration_record check_loop_memory_snapshot check_loop_execution_plan
    check_running_loop stop_reason_aligned_with_status active_loop_has_next_action
    verification_for_completed_cycles check_verified is_unverified check_every required mem?
    run_texts LoopStatus-discrete
loop_env = tt

-- The loop has two cycles, one more than its plan's `max_iterations`.
loop_parts_accepted :
    (check_loop_iteration_record example_loop_iteration_record ≡ ok example_loop_iteration_record)
    × (check_loop_memory_snapshot example_loop_memory_snapshot ≡ ok example_loop_memory_snapshot)
    × (check_loop_execution_plan example_loop_execution_plan ≡ ok example_loop_execution_plan)
    × (check_running_loop example_running_loop_contract_envelope
        ≡ ok example_running_loop_contract_envelope)
unfolding loop_env
loop_parts_accepted = (refl, refl, refl, refl)

abbrev example_loop : RunningLoopContractEnvelope
example_loop = example_running_loop_contract_envelope

check_running_loop_iff_example : (check_running_loop example_loop ≡ ok example_loop) ↔ (
    (is_blank (codes "envelope-id") ≡ false)
    × (is_blank (codes "objective") ≡ false)
    × (mem? exhausted terminal_statuses ≡ true)
    × (exhausted ≡ running → is_blank (codes "next-action") ≡ false)
    × (needs_verification example_loop ≡ true
        → All (λ c. IsVerified c.verification_result) example_loop.cycles)
    × (example_loop ≡ record example_loop {
      envelope_id = strip (codes "envelope-id");
      objective = strip (codes "objective");
    }))
check_running_loop_iff_example = check_running_loop_iff example_loop example_loop
