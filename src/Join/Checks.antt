-- ===== src/Join/Checks.antt =====
-- The validators of the parts of models/parallel_work_join_contract.py.
use nova_harness.Prelude.{
  ModelError, Result, codes, given_above, given_below, is_unique, length, ltb, nat_eq, not, ok,
  out_of_range, pos, refuse, refused_by, solid, text_eq, too_few, ◌>>=◌, ◌>>◌, ◌||◌,
}
use nova_harness.Join.Types.{
  BranchAssignmentRecord, BranchConflictRecord, BranchOutputRecord, JoinExecutionRecord,
  JoinRequirementRecord, MergeResultRecord, ParallelWorkRequest, branch_status_eq, join_policy_eq,
  join_status_eq,
}

unfoldable pub check_parallel_work_request :
    ParallelWorkRequest → Result ModelError ParallelWorkRequest
check_parallel_work_request x = do
  parallel_request_id ← solid (codes "parallel_request_id") x.parallel_request_id
  objective ← solid (codes "objective") x.objective
  ok (record x { parallel_request_id = parallel_request_id; objective = objective })

unfoldable pub check_branch_assignment_record :
    BranchAssignmentRecord → Result ModelError BranchAssignmentRecord
check_branch_assignment_record x = do
  branch_id ← solid (codes "branch_id") x.branch_id
  parallel_request_id ← solid (codes "parallel_request_id") x.parallel_request_id
  scope_summary ← solid (codes "scope_summary") x.scope_summary
  ok (record x {
    branch_id = branch_id;
    parallel_request_id = parallel_request_id;
    scope_summary = scope_summary;
  })

unfoldable pub check_branch_output_record :
    BranchOutputRecord → Result ModelError BranchOutputRecord
check_branch_output_record x = do
  branch_output_id ← solid (codes "branch_output_id") x.branch_output_id
  branch_id ← solid (codes "branch_id") x.branch_id
  refuse (given_below (pos 0) x.confidence || given_above (pos 100) x.confidence)
      (out_of_range (codes "confidence"))
  ok (record x { branch_output_id = branch_output_id; branch_id = branch_id })

unfoldable pub check_branch_conflict_record :
    BranchConflictRecord → Result ModelError BranchConflictRecord
check_branch_conflict_record x = do
  conflict_id ← solid (codes "conflict_id") x.conflict_id
  refuse (ltb (length x.branch_ids) 2) (too_few (codes "branch_ids"))
  refuse (not (is_unique x.branch_ids)) (refused_by (codes "conflict_branch_ids_must_be_unique"))
  conflict_summary ← solid (codes "conflict_summary") x.conflict_summary
  ok (record x { conflict_id = conflict_id; conflict_summary = conflict_summary })

unfoldable pub check_join_requirement_record :
    JoinRequirementRecord → Result ModelError JoinRequirementRecord
check_join_requirement_record x = do
  join_requirement_id ← solid (codes "join_requirement_id") x.join_requirement_id
  parallel_request_id ← solid (codes "parallel_request_id") x.parallel_request_id
  ok (record x {
    join_requirement_id = join_requirement_id;
    parallel_request_id = parallel_request_id;
  })

unfoldable pub check_join_execution_record :
    JoinExecutionRecord → Result ModelError JoinExecutionRecord
check_join_execution_record x = do
  join_id ← solid (codes "join_id") x.join_id
  parallel_request_id ← solid (codes "parallel_request_id") x.parallel_request_id
  ok (record x { join_id = join_id; parallel_request_id = parallel_request_id })

unfoldable pub check_merge_result_record : MergeResultRecord → Result ModelError MergeResultRecord
check_merge_result_record x = do
  merge_id ← solid (codes "merge_id") x.merge_id
  join_id ← solid (codes "join_id") x.join_id
  ok (record x { merge_id = merge_id; join_id = join_id })
