-- ===== src/Join/Envelope.antt =====
-- `ParallelJoinEnvelope` of models/parallel_work_join_contract.py, with its validators and the method
-- that checks an envelope again.
use nova_harness.Prelude.{
  Bool, List, ModelError, Option, Result, Text, [], codes, false, first_missing, given_above,
  given_below, is_nil, is_some, is_unique, length, ltb, map, nat_eq, none, not, ok, pos, refuse,
  refuse_first, refused_by, solid, some, text_eq, too_few, unknown_reference, ◌&&◌, ◌++◌, ◌==◌,
  ◌>>=◌, ◌>>◌, ◌||◌, ◌∷◌,
}
use nova_harness.Join.Types.{
  BranchAssignmentRecord, BranchConflictRecord, BranchOutputRecord, JoinExecutionRecord, JoinPolicy,
  JoinRequirementRecord, MergeResultRecord, ParallelJoinEnvelope, branch_status_eq, join_policy_eq,
  join_status_eq, merged, partial_merge, wait_for_first_success,
}

abbrev pub branch_ids_of : List BranchAssignmentRecord → List Text
branch_ids_of assignments = map (λ b. b.branch_id) assignments

-- The branches that the conflicts name, in the order of the two loops.
unfoldable pub conflict_branches : List BranchConflictRecord → List Text
conflict_branches [] = []
conflict_branches (c ∷ conflicts) = c.branch_ids ++ conflict_branches conflicts

-- `branch_ids_must_be_unique`
unfoldable pub branch_ids_must_be_unique :
    List BranchAssignmentRecord → Result ModelError (Unit {0})
branch_ids_must_be_unique v =
    refuse (not (is_unique (branch_ids_of v))) (refused_by (codes "branch_ids_must_be_unique"))

unfoldable pub output_branch_ids_must_exist :
    List BranchAssignmentRecord → List BranchOutputRecord → Result ModelError (Unit {0})
output_branch_ids_must_exist assignments v =
    refuse_first (unknown_reference (codes "branch_outputs"))
      (first_missing (branch_ids_of assignments) (map (λ o. o.branch_id) v))

unfoldable pub conflict_branch_ids_must_exist :
    List BranchAssignmentRecord → List BranchConflictRecord → Result ModelError (Unit {0})
conflict_branch_ids_must_exist assignments v =
    refuse_first (unknown_reference (codes "conflicts"))
      (first_missing (branch_ids_of assignments) (conflict_branches v))

-- `validate_join_requirements_field`, and `validate_join_requirements`, which repeats it: its loop for
-- `wait_for_all` does nothing.
unfoldable pub validate_join_requirements :
    JoinPolicy → JoinRequirementRecord → Result ModelError (Unit {0})
validate_join_requirements policy v = do
  let total_required = length v.required_branch_ids
  refuse (given_below (pos 1) v.required_completion_count) (refused_by (codes "count_below_one"))
  refuse (ltb 0 total_required && given_above (pos total_required) v.required_completion_count)
      (refused_by (codes "count_above_total"))
  refuse
      (policy == wait_for_first_success
        && ltb 1 total_required
        && not (is_some v.required_completion_count))
      (refused_by (codes "first_success_requires_all"))

-- `join_status not in (merged, partial_merge)` of a join that is there.
unfoldable pub is_unmerged : Option JoinExecutionRecord → Bool
is_unmerged none = false
is_unmerged (some j) = not (j.join_status == merged || j.join_status == partial_merge)

-- `merge_requires_completed_or_partial_join`, and `check_merge_requires_completed_join`
unfoldable pub merge_requires_join :
    Option JoinExecutionRecord → Option MergeResultRecord → Result ModelError (Unit {0})
merge_requires_join join_execution v =
    refuse (is_some v && is_unmerged join_execution) (refused_by (codes "merge_requires_join"))

-- The construction of an envelope from parts that have been validated.
unfoldable pub check_parallel_join_envelope :
    ParallelJoinEnvelope → Result ModelError ParallelJoinEnvelope
check_parallel_join_envelope x = do
  envelope_id ← solid (codes "envelope_id") x.envelope_id
  refuse (is_nil x.branch_assignments) (too_few (codes "branch_assignments"))
  branch_ids_must_be_unique x.branch_assignments
  output_branch_ids_must_exist x.branch_assignments x.branch_outputs
  conflict_branch_ids_must_exist x.branch_assignments x.conflicts
  validate_join_requirements x.parallel_request.join_policy x.join_requirements
  merge_requires_join x.join_execution x.merge_result
  ok (record x { envelope_id = envelope_id })

unfoldable pub check_all_envelope_rules : ParallelJoinEnvelope → Result ModelError (Unit {0})
check_all_envelope_rules x = do
  validate_join_requirements x.parallel_request.join_policy x.join_requirements
  merge_requires_join x.join_execution x.merge_result
