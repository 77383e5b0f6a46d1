-- ===== src/Pipeline/Build.antt =====
-- `_build_context_bundle`, `_build_prompt_assembly` and `_make_safety_decision` of harness/pipeline.py.
use nova_harness.Prelude.{
  List, Option, Result, Text, [], codes, decimal, if◌then◌else◌, is_nil, length, map, nat_eq, none,
  ok, pos, some, text_eq, ◌++◌, ◌==◌, ◌>>=◌, ◌∷◌,
}
use nova_harness.Assembly.{
  AssemblyError, ContextBlock, InstructionLayer, MessageBlock, PromptAssembly, VerificationBlock,
  check_assembly, check_block, check_layer, check_message, check_verification_block, summary_block,
  system_layer, system_role, task_layer, user_role,
}
use nova_harness.Delivery.{
  ContextDeliveryBundle, DeliveryError, DeliveryItem, RepoSnapshot, check_bundle, check_item,
  check_snapshot, file_snippet,
}
use nova_harness.Safety.{
  ActionRiskRule, ApprovalSafetyPolicy, SafetyDecision, SafetyError, allow, check_decision, low,
  resource_type_eq, safety_action_eq,
}
use nova_harness.Task.{
  SuccessCriterion, TaskContract, approval_trigger_eq, kind_value, tool_name_eq,
  verification_kind_eq,
}
use nova_harness.Tool.{approval_state_eq, tool_status_eq}
use nova_harness.Trace.{policy_outcome_type_eq, trace_event_status_eq}

-- `target or kind.value`
unfoldable pub target_of : SuccessCriterion → Text
target_of c = if is_nil c.target then kind_value c.kind else c.target

-- A list comprehension whose body may raise.
unfoldable pub each {ℓ κ} :
    {E A : Type ℓ} {B : Type κ} → (A → Result E B) → List A → Result E (List B)
each f [] = ok []
each f (x ∷ xs) = f x >>= λ y. each f xs >>= λ ys. ok (y ∷ ys)

unfoldable pub file_item : Text → DeliveryItem
file_item p = record {
  item_id = codes "file:" ++ p;
  content_type = file_snippet;
  source_path = none;
  title = p;
  reason = codes "referenced in task";
  content = codes "# placeholder";
  priority = pos 1;
}

unfoldable pub snapshot_of : TaskContract → RepoSnapshot
snapshot_of contract = record {
  repo_root = contract.scope.repo_path;
  top_level_paths = contract.scope.allowed_paths;
  primary_language = some (codes "python");
  build_system = none;
  test_command = none;
  lint_command = none;
}

unfoldable pub bundle_of : TaskContract → RepoSnapshot → List DeliveryItem → ContextDeliveryBundle
bundle_of contract snapshot files = record {
  task_id = contract.task_id;
  task_brief = contract.goal;
  repo_snapshot = snapshot;
  selected_files = files;
  selected_failures = [];
  selected_docs = [];
  verification_hints = record { recommended_commands = []; success_signals = [] };
}

-- `_build_context_bundle`
unfoldable pub build_context_bundle : TaskContract → Result DeliveryError ContextDeliveryBundle
build_context_bundle contract = check_snapshot (snapshot_of contract) >>= λ snapshot.
    each (λ p. check_item (file_item p)) contract.scope.allowed_paths >>= λ files.
    check_bundle (bundle_of contract snapshot files)

unfoldable pub system_layer_of : InstructionLayer
system_layer_of = record {
  layer_id = codes "sys-default";
  layer_type = system_layer;
  title = codes "System";
  content = codes "You are a coding assistant.";
  priority = pos 0;
}

unfoldable pub task_layer_of : TaskContract → InstructionLayer
task_layer_of contract = record {
  layer_id = codes "task-goal";
  layer_type = task_layer;
  title = codes "Task goal";
  content = contract.goal;
  priority = pos 0;
}

unfoldable pub request_block : TaskContract → ContextBlock
request_block contract = record {
  block_id = codes "ctx-input";
  block_type = summary_block;
  title = codes "Request";
  content = contract.inputs.user_request;
  source_ref = none;
  priority = pos 0;
}

unfoldable pub verification_block : TaskContract → VerificationBlock
verification_block contract = record {
  summary =
      some (codes "verify " ++ (decimal (length contract.success_criteria) ++ codes " criteria"));
  required_checks = map target_of contract.success_criteria;
  done_definition = [];
}

unfoldable pub system_message : MessageBlock
system_message = record { role = system_role; content = codes "You are a coding assistant." }

unfoldable pub goal_message : TaskContract → MessageBlock
goal_message contract = record { role = user_role; content = contract.goal }

-- `_build_prompt_assembly`, with the digits that `uuid4` gives.
unfoldable pub build_prompt_assembly :
    Text → TaskContract → Text → Result AssemblyError PromptAssembly
build_prompt_assembly digits contract run_id = check_layer system_layer_of >>= λ system.
    check_layer (task_layer_of contract) >>= λ task.
    check_block (request_block contract) >>= λ request.
    check_verification_block (verification_block contract) >>= λ verification.
    check_message system_message >>= λ first. check_message (goal_message contract) >>= λ second.
    check_assembly (record {
      assembly_id = codes "asm-" ++ digits;
      run_id = run_id;
      instruction_layers = system ∷ task ∷ [];
      context_blocks = request ∷ [];
      tool_exposures = [];
      constraints = [];
      verification = some verification;
      messages = first ∷ second ∷ [];
    })

-- The first rule for the tool, as the loop of `_make_safety_decision` finds it.
unfoldable pub rule_for : Text → List ActionRiskRule → Option ActionRiskRule
rule_for tool [] = none
rule_for tool (rule ∷ rules) = if rule.action_name == tool then some rule else rule_for tool rules

unfoldable pub decision_for : Text → Text → Text → Option ActionRiskRule → SafetyDecision
decision_for digits tool run_id none = record {
  decision_id = codes "dec-" ++ digits;
  run_id = run_id;
  action_name = tool;
  risk_level = low;
  safety_action = allow;
  approved = none;
  approver_id = none;
  decision_reason = codes "no matching rule, default allow";
}
decision_for digits tool run_id (some rule) = record {
  decision_id = codes "dec-" ++ digits;
  run_id = run_id;
  action_name = tool;
  risk_level = rule.risk_level;
  safety_action = rule.safety_action;
  approved = none;
  approver_id = none;
  decision_reason = codes "matched rule: " ++ rule.rationale;
}

-- `_make_safety_decision` for the invocation of the tool.
unfoldable pub make_safety_decision :
    Text → Text → ApprovalSafetyPolicy → Text → Result SafetyError SafetyDecision
make_safety_decision digits tool policy run_id =
    check_decision (decision_for digits tool run_id (rule_for tool policy.rules))
