-- ===== src/Safety/Defaults.antt =====
-- `v1_default_safety_policy` of models/approval_safety.py.
use nova_harness.Prelude.{List, Option, Text, [], codes, none, pos, some, true, ℤ, ◌∷◌}
use nova_harness.Safety.{
  ActionRiskRule, ApprovalRequirement, ApprovalSafetyPolicy, allow, block, critical,
  external_side_effect, filesystem, high, low, medium, network, process, require_approval, secret,
}

-- What the default rules that ask for an approval require: a human, and a reason.
abbrev requirement : Option Text → Option ℤ → ApprovalRequirement
requirement role seconds = record {
  require_human = true;
  approver_role = role;
  reason_required = true;
  expires_in_seconds = seconds;
}

abbrev pub read_workspace_files : ActionRiskRule
read_workspace_files = record {
  rule_id = codes "read-workspace-files";
  action_name = codes "read_file";
  resource_type = filesystem;
  risk_level = low;
  safety_action = allow;
  rationale = codes "Reading workspace files is safe and scoped to project directory.";
  allowed_path_prefixes = codes "/workspace" ∷ [];
  allowed_hosts = [];
  allowed_secret_names = [];
  approval_requirement = none;
}

abbrev pub search_list_files : ActionRiskRule
search_list_files = record {
  rule_id = codes "search-list-files";
  action_name = codes "search_files";
  resource_type = filesystem;
  risk_level = low;
  safety_action = allow;
  rationale = codes "Searching and listing files is read-only and low risk.";
  allowed_path_prefixes = codes "/workspace" ∷ [];
  allowed_hosts = [];
  allowed_secret_names = [];
  approval_requirement = none;
}

abbrev pub run_tests_lint_typecheck : ActionRiskRule
run_tests_lint_typecheck = record {
  rule_id = codes "run-tests-lint-typecheck";
  action_name = codes "run_command";
  resource_type = process;
  risk_level = low;
  safety_action = allow;
  rationale = codes "Running tests, lint, and typecheck inside sandbox is safe.";
  allowed_path_prefixes = [];
  allowed_hosts = [];
  allowed_secret_names = [];
  approval_requirement = none;
}

abbrev pub edit_workspace_files : ActionRiskRule
edit_workspace_files = record {
  rule_id = codes "edit-workspace-files";
  action_name = codes "edit_file";
  resource_type = filesystem;
  risk_level = medium;
  safety_action = require_approval;
  rationale = codes "Editing files can introduce errors or overwrite work.";
  allowed_path_prefixes = codes "/workspace" ∷ [];
  allowed_hosts = [];
  allowed_secret_names = [];
  approval_requirement = some (requirement none none);
}

abbrev pub delete_files : ActionRiskRule
delete_files = record {
  rule_id = codes "delete-files";
  action_name = codes "delete_file";
  resource_type = filesystem;
  risk_level = high;
  safety_action = require_approval;
  rationale = codes "File deletion is irreversible and high risk.";
  allowed_path_prefixes = codes "/workspace" ∷ [];
  allowed_hosts = [];
  allowed_secret_names = [];
  approval_requirement = some (requirement none none);
}

abbrev pub access_secrets : ActionRiskRule
access_secrets = record {
  rule_id = codes "access-secrets";
  action_name = codes "read_secret";
  resource_type = secret;
  risk_level = critical;
  safety_action = require_approval;
  rationale = codes "Secrets access can leak credentials and tokens.";
  allowed_path_prefixes = [];
  allowed_hosts = [];
  allowed_secret_names = codes "api_key" ∷ codes "token" ∷ codes "password" ∷ [];
  approval_requirement = some (requirement (some (codes "security_lead")) none);
}

abbrev pub arbitrary_network : ActionRiskRule
arbitrary_network = record {
  rule_id = codes "arbitrary-network";
  action_name = codes "network_request";
  resource_type = network;
  risk_level = high;
  safety_action = block;
  rationale = codes "Network requests to arbitrary hosts are blocked for safety.";
  allowed_path_prefixes = [];
  allowed_hosts = [];
  allowed_secret_names = [];
  approval_requirement = none;
}

abbrev pub allowlisted_docs_network : ActionRiskRule
allowlisted_docs_network = record {
  rule_id = codes "allowlisted-docs-network";
  action_name = codes "network_request";
  resource_type = network;
  risk_level = medium;
  safety_action = allow;
  rationale = codes "Network requests to allowlisted documentation hosts are permitted.";
  allowed_path_prefixes = [];
  allowed_hosts = codes "docs.python.org" ∷ codes "pypi.org" ∷ codes "npmjs.com" ∷ [];
  allowed_secret_names = [];
  approval_requirement = none;
}

abbrev pub deployment_changes : ActionRiskRule
deployment_changes = record {
  rule_id = codes "deployment-changes";
  action_name = codes "deploy";
  resource_type = external_side_effect;
  risk_level = critical;
  safety_action = require_approval;
  rationale = codes "Deployments affect production and are irreversible.";
  allowed_path_prefixes = [];
  allowed_hosts = [];
  allowed_secret_names = [];
  approval_requirement = some (requirement (some (codes "deployment_lead")) (some (pos 300)));
}

abbrev pub credential_file_access : ActionRiskRule
credential_file_access = record {
  rule_id = codes "credential-file-access";
  action_name = codes "read_file";
  resource_type = filesystem;
  risk_level = critical;
  safety_action = block;
  rationale = codes "Access to credential files is blocked entirely.";
  allowed_path_prefixes = codes "/workspace/.env" ∷ codes "/workspace/credentials" ∷ [];
  allowed_hosts = [];
  allowed_secret_names = [];
  approval_requirement = none;
}

unfoldable pub default_rules : List ActionRiskRule
default_rules =
    read_workspace_files ∷ search_list_files ∷ run_tests_lint_typecheck ∷ edit_workspace_files
    ∷ delete_files ∷ access_secrets ∷ arbitrary_network ∷ allowlisted_docs_network
    ∷ deployment_changes ∷ credential_file_access ∷ []

unfoldable pub v1_default_safety_policy : ApprovalSafetyPolicy
unfolding default_rules
v1_default_safety_policy = record { policy_id = codes "approval-safety-v1"; rules = default_rules }
