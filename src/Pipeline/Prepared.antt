-- ===== src/Pipeline/Prepared.antt =====
-- A run that can begin: what its input must be for `PipelineExecutor.run` to reach step 1.
use nova_harness.Prelude.{
  All, List, Result, Text, [], codes, false, first_repeat, is_blank, is_nil, map, nat_eq, none, ok,
  refl, required, required_solid, run_texts, some, strip, text_eq, ℕ, ◌++◌, ◌∙◌, ◌∷◌, ◌≡◌, ◌≢◌,
}
use nova_harness.Assembly.{
  MessageBlock, PromptAssembly, assembly_id_empty, assembly_run_id_empty, block_content_empty,
  check_assembly, check_block, check_layer, check_message, check_verification_block,
  layer_content_empty, message_content_empty,
}
use nova_harness.Delivery.{
  ContextDeliveryBundle, DeliveryItem, RepoSnapshot, bundle_task_brief_empty, bundle_task_id_empty,
  check_bundle, check_item, check_snapshot, item_title_empty, repo_root_empty,
}
use nova_harness.Driver.{TransitionRecord, allowed_record, given_or_empty}
use nova_harness.Driver.Default.{at_state, guard_env}
use nova_harness.Machine.{
  RunState, assembling_prompt, created, key_eq, model_response_received, prompt_ready, run_event_eq,
  run_state_eq, start_run, tool_call_requested, tool_pending,
}
use nova_harness.Pipeline.Act.{State, add_step, try_fire, try_fire_all}
use nova_harness.Pipeline.Build.{
  build_context_bundle, build_prompt_assembly, bundle_of, each, file_item, goal_message,
  request_block, snapshot_of, system_layer_of, system_message, target_of, task_layer_of,
  verification_block,
}
use nova_harness.Pipeline.Execute.{Executor}
use nova_harness.Pipeline.Run.{approve, fresh_driver, prepare, run, run_from_start}
use nova_harness.Pipeline.Types.{
  Env, ExecutionStepResult, PipelineInput, assembly_purpose, bare_step, run_end, step_end,
  step_start,
}
use nova_harness.Task.{
  SuccessCriterion, TaskContract, approval_trigger_eq, tool_name_eq, verification_kind_eq,
}
use nova_harness.Trace.{policy_outcome_type_eq, prompt_assembly, success, trace_event_status_eq}

-- The input that the run expects: the validated parts of a contract, texts that the contract's models
-- do not check, and a clock whose readings are not empty.
pub record IsRunnable (env : Env) (input : PipelineInput) : Type 0 where
  pub run_named : is_blank input.run_id ≡ false
  pub model_named : is_blank input.model_name ≡ false
  pub task_named : is_blank input.task_contract.task_id ≡ false
  pub goal_stated : is_blank input.task_contract.goal ≡ false
  pub repo_named : is_blank input.task_contract.scope.repo_path ≡ false
  pub request_stated : is_blank input.task_contract.inputs.user_request ≡ false
  pub paths_named : All (λ p. is_blank p ≡ false) input.task_contract.scope.allowed_paths
  pub some_criterion : input.task_contract.success_criteria ≢ []
  pub targets_named : All (λ c. is_blank (target_of c) ≡ false) input.task_contract.success_criteria
  pub fresh : input.state_driver ≡ none
  pub ends : is_nil (env.now run_end) ≡ false
  pub steps_end : (i : ℕ) → is_nil (env.now (step_end i)) ≡ false

pub each-ok {ℓ κ} :
    {E A : Type ℓ} {B : Type κ} (f : A → Result E B) (P : A → Type 0) (xs : List A)
    → ((x : A) → P x → (y : B) × (f x ≡ ok y))
    → All P xs
    → (ys : List B) × (each f xs ≡ ok ys)
unfolding each
each-ok f P [] good h = ([], refl)
each-ok f P (x ∷ xs) good h =
    let (y, e) = good x h.0 in let (ys, e') = each-ok f P xs good h.1 in (y ∷ ys, rw e (rw e'))

file_item-ok :
    (p : Text) → is_blank p ≡ false → (item : DeliveryItem) × (check_item (file_item p) ≡ ok item)
unfolding check_item file_item
file_item-ok p named = (
  record (file_item p) { title = strip p },
  rw (required_solid item_title_empty p named) (unfold required run_texts in refl),
)

module _ (contract : TaskContract) where
  build_context_bundle-ok :
      is_blank contract.task_id ≡ false
      → is_blank contract.goal ≡ false
      → is_blank contract.scope.repo_path ≡ false
      → All (λ p. is_blank p ≡ false) contract.scope.allowed_paths
      → (bundle : ContextDeliveryBundle) × (build_context_bundle contract ≡ ok bundle)
  unfolding build_context_bundle check_snapshot snapshot_of check_bundle bundle_of
  build_context_bundle-ok task goal repo paths =
      let (files, e) =
        each-ok (λ p. check_item (file_item p)) (λ p. is_blank p ≡ false)
          contract.scope.allowed_paths file_item-ok paths in
      let snapshot : RepoSnapshot = record (snapshot_of contract) {
        repo_root = strip contract.scope.repo_path;
      } in
      (
        record (bundle_of contract snapshot files) {
          task_id = strip contract.task_id;
          task_brief = strip contract.goal;
        },
        rw (required_solid repo_root_empty contract.scope.repo_path repo) (
            rw e (
              rw (required_solid bundle_task_id_empty contract.task_id task)
                (rw (required_solid bundle_task_brief_empty contract.goal goal)))),
      )

  verification_block-ok :
      contract.success_criteria ≢ []
      → check_verification_block (verification_block contract) ≡ ok (verification_block contract)
  unfolding check_verification_block verification_block
  verification_block-ok some_criterion = rw (of_criteria contract.success_criteria some_criterion)
    where
      of_criteria :
          (criteria : List SuccessCriterion)
          → criteria ≢ []
          → is_nil (map target_of criteria) ≡ false
      of_criteria [] h = absurd (h refl)
      of_criteria (c ∷ criteria) h = refl

  system_layer-ok : check_layer system_layer_of ≡ ok system_layer_of
  unfolding check_layer system_layer_of required run_texts
  system_layer-ok = refl

  task_layer-ok :
      is_blank contract.goal ≡ false
      → check_layer (task_layer_of contract)
        ≡ ok (record (task_layer_of contract) { content = strip contract.goal })
  unfolding check_layer task_layer_of
  task_layer-ok goal =
      rw (required_solid layer_content_empty contract.goal goal) (unfold required run_texts in refl)

  request_block-ok :
      is_blank contract.inputs.user_request ≡ false
      → check_block (request_block contract)
        ≡ ok (record (request_block contract) { content = strip contract.inputs.user_request })
  unfolding check_block request_block
  request_block-ok request =
      rw (required_solid block_content_empty contract.inputs.user_request request)
        (unfold required run_texts in refl)

  system_message-ok : check_message system_message ≡ ok system_message
  unfolding check_message system_message required run_texts
  system_message-ok = refl

  goal_message-ok :
      is_blank contract.goal ≡ false
      → check_message (goal_message contract)
        ≡ ok (record (goal_message contract) { content = strip contract.goal })
  unfolding check_message goal_message
  goal_message-ok goal = rw (required_solid message_content_empty contract.goal goal)

  -- The messages of the assembly.
  abbrev pub prompt_messages : List MessageBlock
  prompt_messages =
      system_message ∷ record (goal_message contract) { content = strip contract.goal } ∷ []

  pub build_prompt_assembly-ok :
      (digits run_id : Text)
      → is_blank run_id ≡ false
      → is_blank contract.goal ≡ false
      → is_blank contract.inputs.user_request ≡ false
      → contract.success_criteria ≢ []
      → (assembly : PromptAssembly) × (build_prompt_assembly digits contract run_id ≡ ok assembly)
        × (assembly.messages ≡ prompt_messages)
  unfolding build_prompt_assembly
  build_prompt_assembly-ok digits run_id named goal request some_criterion =
      let assembly : PromptAssembly = record {
        assembly_id = strip (codes "asm-" ++ digits);
        run_id = strip run_id;
        instruction_layers =
            system_layer_of
            ∷ record (task_layer_of contract) { content = strip contract.goal }
            ∷ [];
        context_blocks =
            record (request_block contract) { content = strip contract.inputs.user_request } ∷ [];
        tool_exposures = [];
        constraints = [];
        verification = some (verification_block contract);
        messages =
            system_message ∷ record (goal_message contract) { content = strip contract.goal } ∷ [];
      } in
      (
        assembly,
        rw (system_layer-ok, task_layer-ok goal, request_block-ok request)
            (rw (verification_block-ok some_criterion) (
              rw (system_message-ok, goal_message-ok goal)
                (unfold check_assembly first_repeat in
                  rw
                    (required_solid assembly_id_empty (codes "asm-" ++ digits)
                      (unfold run_texts in refl))
                    (rw (required_solid assembly_run_id_empty run_id named))))),
        refl,
      )

module _ (env : Env) {W : Type 0} (executor : Executor env.V W) (input : PipelineInput) where
  -- The state of a run over the default machine.
  abbrev pub at_run :
      RunState → List TransitionRecord → W → List (ExecutionStepResult env.V) → State env.V W
  at_run s history world steps = record {
    driver = at_state (codes "harness-v1") s history;
    world = world;
    step_results = steps;
  }

  abbrev pub first_step : ExecutionStepResult env.V
  first_step =
      bare_step 0 prompt_assembly success 10 (env.now (step_start 0)) (env.now (step_end 0))

  start_entry : TransitionRecord
  unfolding guard_env
  start_entry =
      allowed_record (at_state (codes "harness-v1") created []) start_run assembling_prompt []

  started_run :
      (world : W)
      → input.state_driver ≡ none
      → (history : List TransitionRecord) × (run env executor input world
          ≡ prepare env executor input (at_run assembling_prompt history world []))
  unfolding run run_from_start try_fire fresh_driver guard_env start_entry given_or_empty prepare
  started_run world fresh = (start_entry ∷ [], rw fresh)

  advanced :
      (world : W) (history : List TransitionRecord) (steps : List (ExecutionStepResult env.V))
      → (history' : List TransitionRecord) × (try_fire_all
            (prompt_ready ∷ model_response_received ∷ tool_call_requested ∷ [])
            (at_run assembling_prompt history world steps)
          ≡ (ok none, at_run tool_pending history' world steps))
  unfolding try_fire_all guard_env
  advanced world history steps = (_, refl)

  -- A runnable input reaches step 1 with the first step done and the world as it was.
  pub run_prepared :
      (world : W)
      → IsRunnable env input
      → (history : List TransitionRecord) × (run env executor input world
          ≡ approve env executor input (at_run tool_pending history world (first_step ∷ [])))
  run_prepared world runnable =
      let (history, e) = started_run world runnable.fresh in
      let (history', e') = advanced world history (first_step ∷ []) in
      let contract = input.task_contract in
      let (bundle, b) =
        build_context_bundle-ok contract runnable.task_named runnable.goal_stated
          runnable.repo_named runnable.paths_named in
      let (assembly, a, said) =
        build_prompt_assembly-ok contract (env.hex (assembly_purpose 0)) input.run_id
          runnable.run_named runnable.goal_stated runnable.request_stated runnable.some_criterion in
      (history', e ∙ (unfold prepare add_step in rw b (rw a (rw e'))))
