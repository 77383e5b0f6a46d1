-- ===== src/Pipeline/Raised.antt =====
-- Runs of `PipelineExecutor.run` of harness/pipeline.py whose tool executor raises.
use nova_harness.Prelude.{List, Text, [], ap, err, length, none, ◌∙◌, ◌∷◌, ◌≡◌, ◌≢◌}
use nova_harness.Driver.{TransitionRecord}
use nova_harness.Machine.{RunState, tool_running}
use nova_harness.Pipeline.Act.{State}
use nova_harness.Pipeline.Called.{prescribed}
use nova_harness.Pipeline.Complete.{call, run_reaches_tool}
use nova_harness.Pipeline.Execute.{Executor, after_call, call_tool, execute, perform}
use nova_harness.Pipeline.Prepared.{IsRunnable, at_run, first_step}
use nova_harness.Pipeline.Run.{run}
use nova_harness.Pipeline.Types.{Env, ExecutionStepResult, PipelineInput, executor_raised}
use nova_harness.Safety.{block}
use nova_harness.Tool.{ToolInvocation}

module _ (env : Env) {W : Type 0} (executor : Executor env.V W) (input : PipelineInput) where
  abbrev run_in :
      RunState → List TransitionRecord → W → List (ExecutionStepResult env.V) → State env.V W
  run_in = at_run env executor input

  raised_call :
      (invocation : ToolInvocation env.V) (world world' : W) (message : Text)
      → executor.tool_executor invocation world ≡ (err message, world')
      → (history : List TransitionRecord) (steps : List (ExecutionStepResult env.V))
      → call_tool env executor input invocation none (run_in tool_running history world steps)
        ≡ (err (executor_raised message), run_in tool_running history world' steps)
  unfolding call_tool after_call
  raised_call invocation world world' message raises history steps =
      ap (after_call env executor input (run_in tool_running history world steps)) raises

  raised_perform :
      (invocation : ToolInvocation env.V) (world world' : W) (message : Text)
      → executor.model_provider ≡ none
      → executor.tool_executor invocation world ≡ (err message, world')
      → (history : List TransitionRecord) (steps : List (ExecutionStepResult env.V))
      → perform env executor input invocation (run_in tool_running history world steps)
        ≡ (err (executor_raised message), run_in tool_running history world' steps)
  unfolding perform
  raised_perform invocation world world' message mock raises history steps =
      ap (λ p. call_tool env executor input invocation p (run_in tool_running history world steps))
        mock
      ∙ raised_call invocation world world' message raises history steps

  raised_execute :
      (invocation : ToolInvocation env.V) (world world' : W) (message : Text)
      → executor.model_provider ≡ none
      → executor.tool_executor invocation world ≡ (err message, world')
      → (history : List TransitionRecord) (steps : List (ExecutionStepResult env.V))
      → execute env executor input invocation (run_in tool_running history world steps)
        ≡ (err (executor_raised message), run_in tool_running history world' steps)
  unfolding execute
  raised_execute invocation world world' message mock raises history steps =
      rw (raised_perform invocation world world' message mock raises history steps)

  -- For a runnable input whose policy does not block the tool, what a tool executor of the caller
  -- raises escapes from the run: there is no result, and the driver is left in `tool_running` with
  -- the two steps before it done.
  pub run_raises :
      (world world' : W) (message : Text)
      → IsRunnable env input
      → prescribed env executor input ≢ block
      → executor.model_provider ≡ none
      → executor.tool_executor (call env executor input) world ≡ (err message, world')
      → ((run env executor input world).0 ≡ err (executor_raised message))
        × ((run env executor input world).1.world ≡ world')
        × ((run env executor input world).1.driver.current_state_id ≡ tool_running)
        × (length (run env executor input world).1.step_results ≡ 2)
  run_raises world world' message runnable unblocked mock raises =
      let (history, step, second, reached) =
        run_reaches_tool env executor input world runnable unblocked in
      let ends =
        reached
        ∙ raised_execute (call env executor input) world world' message mock raises history
            (first_step env executor input ∷ step ∷ []) in
      (
        ap (λ r. r.0) ends,
        ap (λ r. r.1.world) ends,
        ap (λ r. r.1.driver.current_state_id) ends,
        ap (λ r. length r.1.step_results) ends,
      )
