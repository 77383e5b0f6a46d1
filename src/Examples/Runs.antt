-- ===== src/Examples/Runs.antt =====
-- Runs of the pipeline on one task, with fixed clocks and ids.
use nova_harness.Prelude.{
  List, Option, Result, Text, [], any?, codes, err, if◌then◌else◌, length, nat_eq, none, ok, refl,
  run_texts, some, suc, text_eq, ℕ, ◌&&◌, ◌++◌, ◌==◌, ◌∷◌, ◌≡◌,
}
use nova_harness.Driver.{StateDriver, available_events, default_driver, no_transition}
use nova_harness.Driver.Default.{run_env}
use nova_harness.Examples.Contracts.{checked_contract, policy_of}
use nova_harness.Machine.{
  failed, key_eq, run_event_eq, run_state_eq, start_run, tool_running, verifying,
}
use nova_harness.Machine.Defaults.{default_machine}
use nova_harness.Pipeline.Build.{make_safety_decision, rule_for, target_of}
use nova_harness.Pipeline.Complete.{call, end_error, end_state, run_blocked, run_success}
use nova_harness.Pipeline.Execute.{Executor, default_executor, default_result}
use nova_harness.Pipeline.Generated.{provided, run-provided}
use nova_harness.Pipeline.Plain.{run_plain}
use nova_harness.Pipeline.Prepared.{IsRunnable, first_step}
use nova_harness.Pipeline.Raised.{run_raises}
use nova_harness.Pipeline.Refused.{run_refused}
use nova_harness.Pipeline.Run.{run}
use nova_harness.Pipeline.Shadowed.{make_safety_decision_shadowed}
use nova_harness.Pipeline.Types.{
  Env, ExecutionStepResult, ModelResponse, PipelineInput, PipelineResult, executor_raised,
  trace_failed,
}
use nova_harness.Pipeline.Verified.{Ends, criteria_pass}
use nova_harness.Safety.{
  ActionRiskRule, ApprovalSafetyPolicy, block, require_approval, resource_type_eq, safety_action_eq,
}
use nova_harness.Safety.Defaults.{
  access_secrets, allowlisted_docs_network, arbitrary_network, credential_file_access,
  default_rules, delete_files, deployment_changes, edit_workspace_files, read_workspace_files,
  run_tests_lint_typecheck, search_list_files,
}
use nova_harness.Task.{approval_trigger_eq, kind_value, tool_name_eq, verification_kind_eq}
use nova_harness.Tool.{ToolResult, approval_state_eq, tool_status_eq, tool_success}
use nova_harness.Trace.{
  RunTrace, blocked, no_step, policy_outcome_type_eq, prompt_assembly, success,
  trace_event_status_eq,
}

abbrev pub environment : Env
environment = record {
  V = Text;
  of_text = λ t. t;
  of_bool = λ b. if b then codes "True" else codes "False";
  render = λ items. codes "def test_it(): assert True";
  lower = λ t. t;
  describe = λ e. codes "invalid";
  now = λ m. codes "2024-01-01";
  hex = λ p. codes "0a";
}

-- The world counts the calls of the tool.
abbrev pub answer : ToolResult Text
answer = record {
  invocation_id = codes "inv-0a";
  tool_name = codes "mock_tool";
  status = tool_success;
  output = some ((codes "content", codes "def test_it(): assert True") ∷ []);
  error = none;
  artifacts = [];
  started_at = none;
  finished_at = none;
}

abbrev pub mock : Executor Text ℕ
mock = record { tool_executor = λ invocation calls. (ok answer, suc calls); model_provider = none }

abbrev response : ModelResponse
response = record {
  content = codes "def test_it(): assert True";
  finish_reason = codes "stop";
  model_used = codes "m";
}

abbrev provider : List (Text × Text) → ℕ → Result Text ModelResponse × ℕ
provider messages calls = (ok response, suc calls)

abbrev with_model : Executor Text ℕ
with_model = record mock { model_provider = some provider }

abbrev input_of : Option ApprovalSafetyPolicy → Option StateDriver → PipelineInput
input_of policy driver = record {
  task_contract = checked_contract;
  run_id = codes "run-1";
  model_name = codes "mock";
  safety_policy = policy;
  state_driver = driver;
}

abbrev pub plain : PipelineInput
plain = input_of none none

abbrev guarded : PipelineInput
guarded = input_of (some (policy_of require_approval (codes "mock_tool"))) none

abbrev forbidden : PipelineInput
forbidden = input_of (some (policy_of block (codes "mock_tool"))) none

pub input_of-IsRunnable :
    (policy : Option ApprovalSafetyPolicy) → IsRunnable environment (input_of policy none)
unfolding run_texts target_of kind_value
input_of-IsRunnable policy = record {
  run_named = refl;
  model_named = refl;
  task_named = refl;
  goal_stated = refl;
  repo_named = refl;
  request_stated = refl;
  paths_named = (refl, (refl, tt));
  some_criterion = λ e. cc;
  targets_named = (refl, (refl, tt));
  fresh = refl;
  ends = refl;
  steps_end = λ i. refl;
}

run_success_example :
    (r : PipelineResult Text) × ((run environment mock plain 0).0 ≡ ok r)
    × (r.success ≡ (answer.status == tool_success && criteria_pass environment mock plain answer))
run_success_example =
    run_success environment mock plain 0 1 answer (input_of-IsRunnable none) (λ e. cc) refl refl

run_blocked_example :
    (step : ExecutionStepResult Text) × (step.status ≡ blocked)
    × Ends environment mock forbidden
        (run environment mock forbidden 0)
        failed
        0
        (first_step environment mock forbidden ∷ step ∷ [])
        none
run_blocked_example =
    run_blocked environment mock forbidden 0
      (input_of-IsRunnable (some (policy_of block (codes "mock_tool"))))
      (unfold rule_for run_texts in refl)

run-provided_example :
    let (tool_ok, result) =
      provided environment with_model plain (call environment with_model plain) (ok response) in
    (steps : List (ExecutionStepResult Text)) × (length steps ≡ (if tool_ok then 4 else 3))
    × Ends environment with_model plain
        (run environment with_model plain 0)
        (end_state environment with_model plain tool_ok result)
        1
        steps
        (end_error environment with_model plain tool_ok result)
run-provided_example =
    run-provided environment with_model plain provider (ok response) 0 1 (input_of-IsRunnable none)
      (λ e. cc) refl refl tt

-- A driver of the default machine in a state that has no `start_run`.
abbrev started : StateDriver
started = record (default_driver (default_machine (codes "m"))) { current_state_id = verifying }

run_refused_example :
    (run environment mock (input_of none (some started)) 0).0 ≡ err (trace_failed no_step)
run_refused_example =
    run_refused environment mock (input_of none (some started)) started started
      (no_transition verifying start_run (available_events started)) 0 refl (unfold run_env in refl)
      (unfold run_texts in refl) (unfold run_texts in refl)

abbrev short_trace : RunTrace
short_trace = record {
  run_id = codes "run-1";
  task_id = codes "t1";
  prompt_assembly_id = none;
  steps =
      record {
        step_id = codes "step-0";
        step_index = 0;
        step_type = prompt_assembly;
        status = success;
        started_at = codes "2024-01-01";
        finished_at = some (codes "2024-01-01");
        latency_seconds = some 10;
        tool = none;
        policy = none;
        verification = none;
        retry = none;
        context_item_ids = [];
      }
      ∷ [];
  terminal_status = success;
  total_latency_seconds = 10;
  started_at = codes "2024-01-01";
  finished_at = some (codes "2024-01-01");
  summary = none;
}

-- The default policy blocks credential files in a rule that stands after one that allows `read_file`.
abbrev rules_before : List ActionRiskRule
rules_before =
    read_workspace_files ∷ search_list_files ∷ run_tests_lint_typecheck ∷ edit_workspace_files
    ∷ delete_files ∷ access_secrets ∷ arbitrary_network ∷ allowlisted_docs_network
    ∷ deployment_changes ∷ []

default_rules_split : default_rules ≡ rules_before ++ credential_file_access ∷ []
unfolding default_rules
default_rules_split = refl

make_safety_decision_shadowed_example :
    make_safety_decision
      (codes "0a")
      (codes "read_file")
      (record { policy_id = codes "p"; rules = rules_before ++ credential_file_access ∷ [] })
      (codes "run-1")
    ≡ make_safety_decision
        (codes "0a")
        (codes "read_file")
        (record { policy_id = codes "p"; rules = rules_before ++ [] })
        (codes "run-1")
make_safety_decision_shadowed_example =
    make_safety_decision_shadowed (codes "0a") (codes "read_file") (codes "run-1") (codes "p")
      rules_before [] credential_file_access (unfold any? run_texts in refl)

run_plain_example :
    let executor = default_executor environment ℕ in
    (r : PipelineResult Text) × ((run environment executor plain 0).0 ≡ ok r)
    × (r.success
        ≡ criteria_pass environment executor plain
            (default_result environment (call environment executor plain)))
    × ((run environment executor plain 0).1.world ≡ 0)
run_plain_example = run_plain environment plain 0 (input_of-IsRunnable none) (λ e. cc)

abbrev broken : Executor Text ℕ
broken = record mock { tool_executor = λ invocation calls. (err (codes "disk full"), suc calls) }

run_raises_example :
    ((run environment broken plain 0).0 ≡ err (executor_raised (codes "disk full")))
    × ((run environment broken plain 0).1.world ≡ 1)
    × ((run environment broken plain 0).1.driver.current_state_id ≡ tool_running)
    × (length (run environment broken plain 0).1.step_results ≡ 2)
run_raises_example =
    run_raises environment broken plain 0 1 (codes "disk full") (input_of-IsRunnable none) (λ e. cc)
      refl refl
