-- ===== src/Examples/Contracts.antt =====
-- A task, with white space and repeated paths, and rules of a safety policy.
use nova_harness.Prelude.{
  All, Text, [], any?, codes, err, false, first_repeat, mem?, nat_eq, none, ok, pos, refl, required,
  run_texts, some, text_eq, true, ◌∷◌, ◌≡◌,
}
use nova_harness.Safety.{
  ActionRiskRule, ApprovalSafetyPolicy, ResourceType-discrete, SafetyAction, SafetyAction-discrete,
  SafetyDecision, allow, check_decision, check_policy, check_risk_rule, high, network,
  require_approval, resource_type_eq, safety_action_eq,
}
use nova_harness.Safety.Defaults.{default_rules, v1_default_safety_policy}
use nova_harness.Task.{
  ApprovalTrigger-discrete, TaskContract, TaskScope, ToolName-discrete, VerificationKind-discrete,
  approval_trigger_eq, bug_fix, check_contract, check_scope, clean_paths, dependency_change,
  invalid_relative_path, is_invalid_path, lint, read_file, run_tests, test, tool_name_eq,
  validate_dependency_policy, validate_no_path_overlap, validate_subpaths,
  validate_tool_criterion_alignment, verification_kind_eq,
}
use nova_harness.Task.Contract.{IsComplete, check_contract-IsComplete, stripped_contract}
use nova_harness.Task.Scope.{IsSafe, check_scope-IsSafe, check_scope-safe}
use nova_harness.Tool.{approval_state_eq, tool_status_eq}

abbrev pub scope : TaskScope
scope = record {
  repo_path = codes " repo";
  allowed_paths = codes "a.py" ∷ codes " b.py " ∷ codes "a.py" ∷ [];
  blocked_paths = codes "secret" ∷ [];
}

abbrev pub clean_scope : TaskScope
clean_scope = record {
  repo_path = codes "repo";
  allowed_paths = codes "a.py" ∷ codes "b.py" ∷ [];
  blocked_paths = codes "secret" ∷ [];
}

scope_checked : check_scope scope ≡ ok clean_scope
unfolding check_scope validate_subpaths clean_paths validate_no_path_overlap is_invalid_path any?
    mem? required run_texts
scope_checked = refl

-- A path that climbs is refused.
climbing_refused :
    validate_subpaths (codes "../x" ∷ []) ≡ err (invalid_relative_path (codes "../x"))
unfolding validate_subpaths clean_paths is_invalid_path mem? run_texts
climbing_refused = refl

check_scope-IsSafe_example : IsSafe clean_scope
check_scope-IsSafe_example = check_scope-IsSafe scope scope_checked

check_scope-safe_example : check_scope clean_scope ≡ ok clean_scope
check_scope-safe_example = check_scope-safe clean_scope (check_scope-IsSafe scope scope_checked)

abbrev pub contract : TaskContract
contract = record {
  task_id = codes "t1";
  title = codes "Fix it";
  task_type = bug_fix;
  goal = codes " Make it pass ";
  scope = clean_scope;
  inputs = record {
    user_request = codes "please fix";
    relevant_files = [];
    failing_tests = [];
    error_logs = [];
  };
  constraints = record {
    max_files_changed = pos 5;
    max_retries = pos 2;
    allow_network = false;
    allow_dependency_changes = false;
  };
  tools_allowed = read_file ∷ run_tests ∷ [];
  success_criteria =
      record { kind = test; target = codes "tests/" } ∷ record { kind = lint; target = [] } ∷ [];
  approval_gates = dependency_change ∷ [];
  output_requirements = record {
    include_summary = true;
    include_changed_files = true;
    include_verification_receipts = true;
  };
}

abbrev pub checked_contract : TaskContract
checked_contract = record contract { goal = codes "Make it pass" }

contract_checked : check_contract contract ≡ ok checked_contract
unfolding check_contract validate_tool_criterion_alignment validate_dependency_policy any? mem?
    required run_texts ToolName-discrete ApprovalTrigger-discrete VerificationKind-discrete
contract_checked = refl

check_contract-IsComplete_example :
    IsComplete checked_contract × (checked_contract ≡ stripped_contract contract)
check_contract-IsComplete_example = check_contract-IsComplete contract contract_checked

abbrev pub rule_of : SafetyAction → Text → ActionRiskRule
rule_of action name = record {
  rule_id = codes "r1";
  action_name = name;
  resource_type = network;
  risk_level = high;
  safety_action = action;
  rationale = codes "outside";
  allowed_path_prefixes = [];
  allowed_hosts = codes "example.org" ∷ [];
  allowed_secret_names = [];
  approval_requirement = none;
}

abbrev pub policy_of : SafetyAction → Text → ApprovalSafetyPolicy
policy_of action name = record { policy_id = codes "p1"; rules = rule_of action name ∷ [] }

abbrev curl : ActionRiskRule
curl = rule_of allow (codes "curl")

abbrev signed : SafetyDecision
signed = record {
  decision_id = codes "d1";
  run_id = codes "run";
  action_name = codes "curl";
  risk_level = high;
  safety_action = require_approval;
  approved = some true;
  approver_id = some (codes "ann");
  decision_reason = codes "fine";
}

signed_checked : check_decision signed ≡ ok signed
unfolding check_decision required run_texts SafetyAction-discrete
signed_checked = refl

-- The default policy and each of its rules are accepted.
default_policy_accepted :
    (check_policy v1_default_safety_policy ≡ ok v1_default_safety_policy)
    × All (λ r. check_risk_rule r ≡ ok r) default_rules
unfolding v1_default_safety_policy default_rules check_policy check_risk_rule required run_texts
    first_repeat mem? SafetyAction-discrete ResourceType-discrete
default_policy_accepted =
    (refl, (refl, (refl, (refl, (refl, (refl, (refl, (refl, (refl, (refl, (refl, tt)))))))))))
