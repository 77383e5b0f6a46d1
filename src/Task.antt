-- ===== src/Task.antt =====
-- models/task_contract.py: the contract of a task, with the validators of its parts.
pub mod Scope
pub mod Contract
use nova_harness.Prelude.{
  Bool, Eq, List, Result, Text, [], any?, codes, err, has_part, if◌then◌else◌, is_nil, ltb_ℤ, mem?,
  nat_eq, not, ok, pos, refuse, required, starts_with, strip, text_eq, ℤ, ◌&&◌, ◌==◌, ◌>>=◌, ◌>>◌,
  ◌||◌, ◌∷◌,
}

pub data TaskType : Type 0 where
  bug_fix feature refactor test_only : TaskType

pub data ToolName : Type 0 where
  read_file search_code edit_file run_tests run_lint run_typecheck git_diff : ToolName

pub data ApprovalTrigger : Type 0 where
  dependency_change delete_file touch_blocked_path large_diff : ApprovalTrigger

pub data VerificationKind : Type 0 where
  test lint typecheck diff_review : VerificationKind

unfoldable pub ToolName-discrete : Discrete ToolName
ToolName-discrete = hlevel

unfoldable pub ApprovalTrigger-discrete : Discrete ApprovalTrigger
ApprovalTrigger-discrete = hlevel

unfoldable pub VerificationKind-discrete : Discrete VerificationKind
VerificationKind-discrete = hlevel

instance abbrev pub tool_name_eq : Eq ToolName
tool_name_eq = record { eq? = ToolName-discrete }

instance abbrev pub approval_trigger_eq : Eq ApprovalTrigger
approval_trigger_eq = record { eq? = ApprovalTrigger-discrete }

instance abbrev pub verification_kind_eq : Eq VerificationKind
verification_kind_eq = record { eq? = VerificationKind-discrete }

-- `VerificationKind.value`
unfoldable pub kind_value : VerificationKind → Text
kind_value test = codes "test"
kind_value lint = codes "lint"
kind_value typecheck = codes "typecheck"
kind_value diff_review = codes "diff_review"

pub record TaskScope : Type 0 where
  pub repo_path : Text
  pub allowed_paths : List Text
  pub blocked_paths : List Text

pub record TaskInputs : Type 0 where
  pub user_request : Text
  pub relevant_files : List Text
  pub failing_tests : List Text
  pub error_logs : List Text

pub record TaskConstraints : Type 0 where
  pub max_files_changed : ℤ
  pub max_retries : ℤ
  pub allow_network : Bool
  pub allow_dependency_changes : Bool

pub record SuccessCriterion : Type 0 where
  pub kind : VerificationKind
  pub target : Text

pub record OutputRequirements : Type 0 where
  pub include_summary : Bool
  pub include_changed_files : Bool
  pub include_verification_receipts : Bool

pub record TaskContract : Type 0 where
  pub task_id : Text
  pub title : Text
  pub task_type : TaskType
  pub goal : Text
  pub scope : TaskScope
  pub inputs : TaskInputs
  pub constraints : TaskConstraints
  pub tools_allowed : List ToolName
  pub success_criteria : List SuccessCriterion
  pub approval_gates : List ApprovalTrigger
  pub output_requirements : OutputRequirements

pub data TaskError : Type 0 where
  repo_path_empty path_entry_empty : TaskError
  invalid_relative_path : Text → TaskError
  paths_overlap max_retries_out_of_range max_files_changed_out_of_range : TaskError
  title_blank goal_blank tools_allowed_empty success_criteria_empty : TaskError
  test_criterion_missing dependency_gate_missing : TaskError

-- `item.startswith("/") or ".." in item`
unfoldable pub is_invalid_path : Text → Bool
is_invalid_path item = starts_with (codes "/") item || has_part (codes "..") item

-- The loop of `validate_subpaths`; `seen` holds what `cleaned` holds.
unfoldable pub clean_paths : List Text → List Text → Result TaskError (List Text)
clean_paths seen [] = ok []
clean_paths seen (raw ∷ value) =
    let item = strip raw in
    let skipped = clean_paths seen value in
    let taken = clean_paths (item ∷ seen) value in
    if is_nil item
    then err path_entry_empty
    else if is_invalid_path item
    then err (invalid_relative_path item)
    else if mem? item seen
    then skipped
    else taken >>= λ cleaned. ok (item ∷ cleaned)

unfoldable pub validate_subpaths : List Text → Result TaskError (List Text)
validate_subpaths value = clean_paths [] value

unfoldable pub validate_no_path_overlap : List Text → List Text → Result TaskError (Unit {0})
validate_no_path_overlap allowed blocked = refuse (any? (λ p. mem? p blocked) allowed) paths_overlap

unfoldable pub check_scope : TaskScope → Result TaskError TaskScope
check_scope s = do
  repo_path ← required repo_path_empty s.repo_path
  allowed_paths ← validate_subpaths s.allowed_paths
  blocked_paths ← validate_subpaths s.blocked_paths
  validate_no_path_overlap allowed_paths blocked_paths
  ok (record {
    repo_path = repo_path;
    allowed_paths = allowed_paths;
    blocked_paths = blocked_paths;
  })

unfoldable pub check_constraints : TaskConstraints → Result TaskError TaskConstraints
check_constraints c = do
  refuse (ltb_ℤ c.max_files_changed (pos 1) || ltb_ℤ (pos 50) c.max_files_changed)
      max_files_changed_out_of_range
  refuse (ltb_ℤ c.max_retries (pos 0) || ltb_ℤ (pos 5) c.max_retries) max_retries_out_of_range
  ok c

unfoldable pub validate_tool_criterion_alignment : TaskContract → Result TaskError (Unit {0})
validate_tool_criterion_alignment c =
    refuse
      (mem? run_tests c.tools_allowed
        && not (any? (λ criterion. criterion.kind == test) c.success_criteria))
      test_criterion_missing

unfoldable pub validate_dependency_policy : TaskContract → Result TaskError (Unit {0})
validate_dependency_policy c =
    refuse
      (not c.constraints.allow_dependency_changes && not (mem? dependency_change c.approval_gates))
      dependency_gate_missing

-- The validators of `TaskContract`, over parts that have been validated.
unfoldable pub check_contract : TaskContract → Result TaskError TaskContract
check_contract c = do
  title ← required title_blank c.title
  goal ← required goal_blank c.goal
  refuse (is_nil c.tools_allowed) tools_allowed_empty
  refuse (is_nil c.success_criteria) success_criteria_empty
  validate_tool_criterion_alignment c
  validate_dependency_policy c
  ok (record c { title = title; goal = goal })
