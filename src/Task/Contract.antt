-- ===== src/Task/Contract.antt =====
-- What the validators of `TaskContract` and of `TaskConstraints` accept.
use nova_harness.Prelude.{
  Bool-cases, List, Memᴰ, [], any?, ap, arith, false, inl, inr, is_nil, mem?, nat_eq, negsuc, ok,
  pos, refl, required, required-normal, required-ok, required_normal, strip, text_eq, true, ℕ, ℤ,
  ◌==◌, ◌↔◌, ◌∙◌, ◌∷◌, ◌≡◌, ◌≢◌, ◌≤◌,
}
use nova_harness.Task.{
  SuccessCriterion, TaskConstraints, TaskContract, approval_trigger_eq, check_constraints,
  check_contract, dependency_change, goal_blank, run_tests, test, title_blank, tool_name_eq,
  validate_dependency_policy, validate_tool_criterion_alignment, verification_kind_eq,
}

pub record IsComplete (c : TaskContract) : Type 0 where
  pub titled : (strip c.title ≡ c.title) × (is_nil c.title ≡ false)
  pub aimed : (strip c.goal ≡ c.goal) × (is_nil c.goal ≡ false)
  pub has_tool : c.tools_allowed ≢ []
  pub has_criterion : c.success_criteria ≢ []
  pub tests_checked :
      mem? run_tests c.tools_allowed ≡ true
      → (criterion : SuccessCriterion) × Memᴰ criterion c.success_criteria × (criterion.kind ≡ test)
  pub dependencies_gated :
      c.constraints.allow_dependency_changes ≡ false
      → mem? dependency_change c.approval_gates ≡ true

-- Two contracts that differ by the white space around the title and the goal.
abbrev pub stripped_contract : TaskContract → TaskContract
stripped_contract c = record c { title = strip c.title; goal = strip c.goal }

contract_parts :
    (c : TaskContract) {c' : TaskContract}
    → check_contract c ≡ ok c'
    → (required title_blank c.title ≡ ok c'.title)
      × (required goal_blank c.goal ≡ ok c'.goal)
      × (c' ≡ record c { title = c'.title; goal = c'.goal })
      × (is_nil c.tools_allowed ≡ false)
      × (is_nil c.success_criteria ≡ false)
      × (validate_tool_criterion_alignment c ≡ ok tt)
      × (validate_dependency_policy c ≡ ok tt)
unfolding check_contract
contract_parts c h = ground arith

any?-Memᴰ :
    (criteria : List SuccessCriterion)
    → any? (λ criterion. criterion.kind == test) criteria ≡ true
    → (criterion : SuccessCriterion) × Memᴰ criterion criteria × (criterion.kind ≡ test)
unfolding any?
any?-Memᴰ [] h = cc
any?-Memᴰ (c ∷ criteria) h = elim (Bool-cases (c.kind == test)) [
  | inl tests ↦ (c, Memᴰ.head refl, ground arith)
  | inr other ↦
      let (d, listed, same) = any?-Memᴰ criteria (ground arith) in (d, Memᴰ.tail listed, same)
]

-- A contract that its validators return has a title and a goal that are stripped and not blank, a
-- tool and a criterion, a test criterion if the task may run tests, and the dependency gate unless
-- the constraints allow dependency changes; it is the given one up to stripping.
pub check_contract-IsComplete :
    (c : TaskContract) {c' : TaskContract}
    → check_contract c ≡ ok c'
    → IsComplete c' × (c' ≡ stripped_contract c)
unfolding validate_tool_criterion_alignment validate_dependency_policy
check_contract-IsComplete c {c'} h =
    let (title, goal, same, tools, criteria, aligned, gated) = contract_parts c h in
    (
      record {
        titled = required-normal title_blank c.title title;
        aimed = required-normal goal_blank c.goal goal;
        has_tool = λ e. ground arith;
        has_criterion = λ e. ground arith;
        tests_checked = λ m. any?-Memᴰ c'.success_criteria (ground arith);
        dependencies_gated = λ m. ground arith;
      },
      cc (same, (required-ok title_blank c.title title).1, (required-ok goal_blank c.goal goal).1),
    )

-- Such a contract is returned as it is when it is validated again.
pub check_contract_again :
    (c : TaskContract) {c' : TaskContract} → check_contract c ≡ ok c' → check_contract c' ≡ ok c'
check_contract_again c {c'} h =
    let (title, goal, same, tools, criteria, aligned, gated) = contract_parts c h in
    let (stripped, solid) = required-normal title_blank c.title title in
    let (stripped', solid') = required-normal goal_blank c.goal goal in
    unfold check_contract validate_tool_criterion_alignment validate_dependency_policy in
    ground (
      arith,
      required_normal title_blank c'.title stripped solid,
      required_normal goal_blank c'.goal stripped' solid',
    )

-- The numbers of files and of retries that a task may have.
pub record IsBudget (c : TaskConstraints) : Type 0 where
  pub files : ℕ
  pub retries : ℕ
  pub files_given : c.max_files_changed ≡ pos files
  pub retries_given : c.max_retries ≡ pos retries
  pub some_file : 1 ≤ files
  pub files_bound : files ≤ 50
  pub retries_bound : retries ≤ 5

IsBudget-of :
    (c : TaskConstraints) (f r : ℤ)
    → c.max_files_changed ≡ f
    → c.max_retries ≡ r
    → check_constraints c ≡ ok c
    → IsBudget c
unfolding check_constraints
IsBudget-of c (pos f) (pos r) p q h = record {
  files = f;
  retries = r;
  files_given = p;
  retries_given = q;
  some_file = ground arith;
  files_bound = ground arith;
  retries_bound = ground arith;
}
IsBudget-of c (negsuc f) r p q h = absurd (ground arith)
IsBudget-of c (pos f) (negsuc r) p q h = absurd (ground arith)

constraints_kept :
    (c : TaskConstraints) {c' : TaskConstraints} → check_constraints c ≡ ok c' → c' ≡ c
unfolding check_constraints
constraints_kept c h = ground arith

-- The constraints are accepted exactly when the number of files lies between 1 and 50 and the
-- number of retries between 0 and 5, and they are returned unchanged.
pub check_constraints_iff :
    (c c' : TaskConstraints) → (check_constraints c ≡ ok c') ↔ ((c' ≡ c) × IsBudget c)
check_constraints_iff c c' = (
  (λ h.
      let same = constraints_kept c h in
      (same, IsBudget-of c c.max_files_changed c.max_retries refl refl (h ∙ ap ok same))),
  (λ (same, budget). unfold check_constraints in ground arith),
)
