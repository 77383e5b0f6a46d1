-- ===== src/Examples/Joins.antt =====
-- An envelope of two records that join.
use nova_harness.Prelude.{
  [], codes, false, first_missing, is_unique, mem?, nat_eq, none, ok, pos, refl, required,
  run_texts, set_of, some, text_eq, ◌↔◌, ◌∷◌, ◌≡◌, ◌⊎◌,
}
use nova_harness.Join.Checks.{
  check_branch_assignment_record, check_branch_conflict_record, check_branch_output_record,
  check_join_execution_record, check_join_requirement_record, check_merge_result_record,
  check_parallel_work_request,
}
use nova_harness.Join.Envelope.{
  branch_ids_must_be_unique, check_all_envelope_rules, check_parallel_join_envelope,
  conflict_branch_ids_must_exist, conflict_branches, is_unmerged, merge_requires_join,
  output_branch_ids_must_exist, validate_join_requirements,
}
use nova_harness.Join.Rules.{check_all_envelope_rules_replaced}
use nova_harness.Join.Types.{
  BranchAssignmentRecord, BranchConflictRecord, BranchOutputRecord, JoinExecutionRecord,
  JoinPolicy-discrete, JoinRequirementRecord, JoinStatus-discrete, MergeResultRecord,
  ParallelJoinEnvelope, ParallelWorkRequest, branch_status_eq, completed, failed_join, fan_out_all,
  join_policy_eq, join_status_eq, merged, partial_merge, success, wait_for_all,
  wait_for_first_success,
}
use native.Mathlib.Decide.{ℕ_discrete}

abbrev example_parallel_work_request : ParallelWorkRequest
example_parallel_work_request = record {
  parallel_request_id = codes "parallel-request-id";
  parent_run_id = none;
  parent_step_id = none;
  parent_graph_node_id = none;
  parallelization_mode = fan_out_all;
  objective = codes "objective";
  branching_reason = none;
  requested_branch_count = none;
  join_policy = wait_for_all;
  created_at = codes "2024-01-01";
}

abbrev example_branch_assignment_record : BranchAssignmentRecord
example_branch_assignment_record = record {
  branch_id = codes "branch-id";
  parallel_request_id = codes "parallel-request-id";
  assigned_agent_id = none;
  assigned_role_id = none;
  scope_summary = codes "scope-summary";
  input_refs = [];
  expected_output_types = [];
  dependency_refs = [];
  conflict_risk = none;
  status = completed;
  started_at = none;
  deadline_at = none;
}

abbrev example_branch_output_record : BranchOutputRecord
example_branch_output_record = record {
  branch_output_id = codes "branch-output-id";
  branch_id = codes "branch-id";
  status = completed;
  result_summary = none;
  output_refs = [];
  evidence_refs = [];
  changed_artifact_refs = [];
  confidence = some (pos 90);
  submitted_at = none;
}

abbrev example_branch_conflict_record : BranchConflictRecord
example_branch_conflict_record = record {
  conflict_id = codes "conflict-id";
  branch_ids = codes "a" ∷ codes "b" ∷ [];
  conflict_type = none;
  conflict_summary = codes "conflict-summary";
  artifact_refs = [];
  proposed_resolution = none;
  requires_review = false;
}

abbrev example_join_requirement_record : JoinRequirementRecord
example_join_requirement_record = record {
  join_requirement_id = codes "join-requirement-id";
  parallel_request_id = codes "parallel-request-id";
  required_branch_ids = codes "branch-id" ∷ [];
  optional_branch_ids = [];
  required_completion_count = some (pos 1);
  accept_partial_failures = false;
  deadline_policy = none;
}

abbrev example_join_execution_record : JoinExecutionRecord
example_join_execution_record = record {
  join_id = codes "join-id";
  parallel_request_id = codes "parallel-request-id";
  join_policy = wait_for_all;
  join_status = merged;
  completed_branch_ids = [];
  failed_branch_ids = [];
  late_branch_ids = [];
  selected_output_refs = [];
  join_notes = none;
  executed_at = none;
}

abbrev example_merge_result_record : MergeResultRecord
example_merge_result_record = record {
  merge_id = codes "merge-id";
  join_id = codes "join-id";
  merge_outcome = success;
  merged_output_refs = [];
  rejected_output_refs = [];
  conflict_refs = [];
  review_required = false;
  final_summary = none;
  next_action = none;
  merged_at = none;
}

abbrev example_parallel_join_envelope : ParallelJoinEnvelope
example_parallel_join_envelope = record {
  envelope_id = codes "envelope-id";
  parallel_request = example_parallel_work_request;
  branch_assignments = example_branch_assignment_record ∷ [];
  branch_outputs = example_branch_output_record ∷ [];
  conflicts = [];
  join_requirements = example_join_requirement_record;
  join_execution = some example_join_execution_record;
  merge_result = some example_merge_result_record;
}

unfoldable join_env : Unit {0}
unfolding check_parallel_work_request check_branch_assignment_record check_branch_output_record
    check_branch_conflict_record check_join_requirement_record check_join_execution_record
    check_merge_result_record check_parallel_join_envelope branch_ids_must_be_unique
    output_branch_ids_must_exist conflict_branch_ids_must_exist validate_join_requirements
    merge_requires_join is_unmerged conflict_branches is_unique set_of first_missing required mem?
    run_texts JoinStatus-discrete JoinPolicy-discrete ℕ_discrete
join_env = tt

join_parts_accepted :
    (check_parallel_work_request example_parallel_work_request ≡ ok example_parallel_work_request)
    × (check_branch_assignment_record example_branch_assignment_record
        ≡ ok example_branch_assignment_record)
    × (check_branch_output_record example_branch_output_record ≡ ok example_branch_output_record)
    × (check_branch_conflict_record example_branch_conflict_record
        ≡ ok example_branch_conflict_record)
    × (check_join_requirement_record example_join_requirement_record
        ≡ ok example_join_requirement_record)
    × (check_join_execution_record example_join_execution_record ≡ ok example_join_execution_record)
    × (check_merge_result_record example_merge_result_record ≡ ok example_merge_result_record)
unfolding join_env
join_parts_accepted = (refl, refl, refl, refl, refl, refl, refl)

join_envelope_accepted :
    check_parallel_join_envelope example_parallel_join_envelope ≡ ok example_parallel_join_envelope
unfolding join_env
join_envelope_accepted = refl

-- All of two required branches, though the first success is to end the join.
first_success_of_all_accepted :
    validate_join_requirements wait_for_first_success (record example_join_requirement_record {
      required_branch_ids = codes "a" ∷ codes "b" ∷ [];
      required_completion_count = some (pos 2);
    })
    ≡ ok tt
unfolding join_env
first_success_of_all_accepted = refl

abbrev failed_execution : JoinExecutionRecord
failed_execution = record example_join_execution_record { join_status = failed_join }

check_all_envelope_rules_replaced_example :
    (check_all_envelope_rules example_parallel_join_envelope ≡ ok tt)
    × ((check_all_envelope_rules
            (record example_parallel_join_envelope { join_execution = some failed_execution })
          ≡ ok tt)
        ↔ ((failed_join ≡ merged) ⊎ (failed_join ≡ partial_merge)))
check_all_envelope_rules_replaced_example =
    check_all_envelope_rules_replaced example_parallel_join_envelope example_parallel_join_envelope
      (some failed_execution) join_envelope_accepted
