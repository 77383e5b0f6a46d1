-- ===== src/Join/Rules.antt =====
-- Which envelopes of models/parallel_work_join_contract.py the validators accept.
-- How many of the required branches a join may wait for: some number from one on, no larger than that
-- of the required branches if there are any. Where the first success ends the join and no number is
-- given, at most one branch is required.
use nova_harness.Prelude.{
  All, Distinct, Known, Option, [], arith, blank, codes, false, first_missing_iff, is_blank,
  is_unique_iff, length, map, nat_eq, negsuc, none, ok, pos, refl, required-ok, required_solid,
  solid, some, strip, text_eq, ℕ, ℤ, ◌<◌, ◌↔◌, ◌≡◌, ◌≢◌, ◌≤◌, ◌⊎◌,
}
use nova_harness.Join.Envelope.{
  branch_ids_must_be_unique, branch_ids_of, check_all_envelope_rules, check_parallel_join_envelope,
  conflict_branch_ids_must_exist, conflict_branches, is_unmerged, merge_requires_join,
  output_branch_ids_must_exist, validate_join_requirements,
}
use nova_harness.Join.Types.{
  JoinExecutionRecord, JoinPolicy, JoinRequirementRecord, MergeResultRecord, ParallelJoinEnvelope,
  branch_status_eq, join_policy_eq, join_status_eq, merged, partial_merge, wait_for_first_success,
}

abbrev pub IsCounted : JoinPolicy → ℕ → Option ℤ → Type 0
IsCounted policy total none = policy ≡ wait_for_first_success → total ≤ 1
IsCounted policy total (some (pos n)) = (1 ≤ n) × (0 < total → n ≤ total)
IsCounted policy total (some (negsuc n)) = ⊥

-- A merge result stands beside no join, or beside one that has merged, at least in part.
abbrev pub IsMerged : Option JoinExecutionRecord → Option MergeResultRecord → Type 0
IsMerged (some j) (some m) = (j.join_status ≡ merged) ⊎ (j.join_status ≡ partial_merge)
IsMerged _ _ = Unit

count_iff :
    (policy : JoinPolicy) (r : JoinRequirementRecord) (count : Option ℤ)
    → r.required_completion_count ≡ count
    → (validate_join_requirements policy r ≡ ok tt)
      ↔ IsCounted policy (length r.required_branch_ids) count
unfolding validate_join_requirements
count_iff policy r none e = ((λ h first. ground arith), (λ c. ground arith))
count_iff policy r (some (pos n)) e =
    ((λ h. (ground arith, λ some_required. ground arith)), (λ c. ground arith))
count_iff policy r (some (negsuc n)) e = ((λ h. ground arith), (λ c. absurd c))

validate_join_requirements_iff :
    (policy : JoinPolicy) (r : JoinRequirementRecord)
    → (validate_join_requirements policy r ≡ ok tt)
      ↔ IsCounted policy (length r.required_branch_ids) r.required_completion_count
validate_join_requirements_iff policy r = count_iff policy r r.required_completion_count refl

merge_requires_join_iff :
    (j : Option JoinExecutionRecord) (m : Option MergeResultRecord)
    → (merge_requires_join j m ≡ ok tt) ↔ IsMerged j m
unfolding merge_requires_join is_unmerged
merge_requires_join_iff none none = ((λ h. tt), (λ i. refl))
merge_requires_join_iff none (some m) = ((λ h. tt), (λ i. refl))
merge_requires_join_iff (some j) none = ((λ h. tt), (λ i. refl))
merge_requires_join_iff (some j) (some m) = ((λ h. ground arith), (λ i. ground arith))

pub record IsJoinable (x : ParallelJoinEnvelope) : Type 0 where
  pub named : is_blank x.envelope_id ≡ false
  pub some_branch : x.branch_assignments ≢ []
  pub different : Distinct (branch_ids_of x.branch_assignments)
  pub outputs_known :
      All (Known (branch_ids_of x.branch_assignments)) (map (λ o. o.branch_id) x.branch_outputs)
  pub conflicts_known :
      All (Known (branch_ids_of x.branch_assignments)) (conflict_branches x.conflicts)
  pub counted :
      IsCounted x.parallel_request.join_policy
        (length x.join_requirements.required_branch_ids)
        x.join_requirements.required_completion_count
  pub joined : IsMerged x.join_execution x.merge_result

pub check_parallel_join_envelope_iff :
    (x y : ParallelJoinEnvelope)
    → (check_parallel_join_envelope x ≡ ok y)
      ↔ (IsJoinable x × (y ≡ record x { envelope_id = strip x.envelope_id }))
unfolding check_parallel_join_envelope branch_ids_must_be_unique output_branch_ids_must_exist
    conflict_branch_ids_must_exist
check_parallel_join_envelope_iff x y =
    let ids = branch_ids_of x.branch_assignments in
    let distinct = is_unique_iff ids in
    let outputs = first_missing_iff ids (map (λ o. o.branch_id) x.branch_outputs) in
    let conflicts = first_missing_iff ids (conflict_branches x.conflicts) in
    let counted =
      validate_join_requirements_iff x.parallel_request.join_policy x.join_requirements in
    let merged = merge_requires_join_iff x.join_execution x.merge_result in
    (
      (λ h.
          let (solid, stripped) =
            required-ok (blank (codes "envelope_id")) x.envelope_id {value = y.envelope_id}
              (ground arith) in
          (
            record {
              named = solid;
              some_branch = λ e. ground arith;
              different = distinct.0 (ground arith);
              outputs_known = outputs.0 (ground arith);
              conflicts_known = conflicts.0 (ground arith);
              counted = counted.0 (ground arith);
              joined = merged.0 (ground arith);
            },
            ground arith,
          )),
      (λ (j, same). ground (
        arith,
        required_solid (blank (codes "envelope_id")) x.envelope_id j.named,
        distinct.1 j.different,
        outputs.1 j.outputs_known,
        conflicts.1 j.conflicts_known,
        counted.1 j.counted,
        merged.1 j.joined,
        j.some_branch,
      )),
    )

-- After any assignments to the fields of an envelope, which nothing validates,
-- `check_all_envelope_rules` returns exactly if the count and the merge are right.
check_all_envelope_rules_iff :
    (x : ParallelJoinEnvelope)
    → (check_all_envelope_rules x ≡ ok tt) ↔ (
        IsCounted x.parallel_request.join_policy
          (length x.join_requirements.required_branch_ids)
          x.join_requirements.required_completion_count
        × IsMerged x.join_execution x.merge_result)
unfolding check_all_envelope_rules
check_all_envelope_rules_iff x =
    let counted =
      validate_join_requirements_iff x.parallel_request.join_policy x.join_requirements in
    let merged = merge_requires_join_iff x.join_execution x.merge_result in
    (
      (λ h. (counted.0 (ground arith), merged.0 (ground arith))),
      (λ (c, m). ground (arith, counted.1 c, merged.1 m)),
    )

-- An envelope that the validators accept, the method `check_all_envelope_rules` accepts too, also with
-- another join in place of its own, exactly if its merge result still stands beside no join or beside
-- one that has merged.
pub check_all_envelope_rules_replaced :
    (x y : ParallelJoinEnvelope) (j : Option JoinExecutionRecord)
    → check_parallel_join_envelope x ≡ ok y
    → (check_all_envelope_rules y ≡ ok tt)
      × ((check_all_envelope_rules (record y { join_execution = j }) ≡ ok tt)
          ↔ IsMerged j y.merge_result)
check_all_envelope_rules_replaced x y j accepted =
    let (good, same) = (check_parallel_join_envelope_iff x y).0 accepted in
    let replaced =
      check_all_envelope_rules_iff
        (record x { envelope_id = strip x.envelope_id; join_execution = j }) in
    rw same (
      (check_all_envelope_rules_iff (record x { envelope_id = strip x.envelope_id })).1
          (good.counted, good.joined),
      ((λ h. (replaced.0 h).1), (λ m. replaced.1 (good.counted, m))),
    )
