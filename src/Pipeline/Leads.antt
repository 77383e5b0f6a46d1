-- ===== src/Pipeline/Leads.antt =====
-- Where step 1 of a run leads: to the tool, or to the end of a run that is blocked.
use nova_harness.Prelude.{
  List, Option, Result, [], false, is_blank, none, refl, some, subst, ◌∙◌, ◌∷◌, ◌≡◌, ◌≢◌,
}
use nova_harness.Driver.{TransitionRecord}
use nova_harness.Machine.{RunState, failed, tool_pending, tool_running}
use nova_harness.Pipeline.Act.{State}
use nova_harness.Pipeline.Approved.{
  IsSecond, approve_allowed-goes, approve_blocked-goes, approve_default-goes, approve_required-goes,
}
use nova_harness.Pipeline.Build.{make_safety_decision, rule_for}
use nova_harness.Pipeline.Called.{
  invocation-ok, prescribed, sent, state_sent, tool_called, tool_called-solid,
}
use nova_harness.Pipeline.Execute.{Executor, execute, finish_with}
use nova_harness.Pipeline.Executed.{action_for, action_of_rule, decision-ok}
use nova_harness.Pipeline.Prepared.{IsRunnable, at_run, first_step, run_prepared}
use nova_harness.Pipeline.Run.{
  approve, approve_allowed, approve_blocked, approve_default, approve_required, decide, run,
}
use nova_harness.Pipeline.Types.{
  Env, ExecutionStepResult, PipelineInput, PipelineResult, RunError, decision_purpose,
}
use nova_harness.Safety.{
  ApprovalSafetyPolicy, SafetyAction, SafetyDecision, allow, block, require_approval,
}
use nova_harness.Tool.{ApprovalState, ToolInvocation, not_required, pending}
use nova_harness.Trace.{blocked}

module _ (env : Env) {W : Type 0} (executor : Executor env.V W) (input : PipelineInput) where
  abbrev called : ApprovalState → ToolInvocation env.V
  called = sent env executor input

  abbrev first : ExecutionStepResult env.V
  first = first_step env executor input

  abbrev run_in :
      RunState → List TransitionRecord → W → List (ExecutionStepResult env.V) → State env.V W
  run_in = at_run env executor input

  -- From step 1 on, without a policy and with one.
  approve_plain :
      (history : List TransitionRecord) (world : W)
      → IsRunnable env input
      → input.safety_policy ≡ none
      → approve env executor input (run_in tool_pending history world (first ∷ []))
        ≡ approve_default env executor input
            (called not_required)
            (run_in tool_pending history world (first ∷ []))
  unfolding approve
  approve_plain history world runnable e = rw (invocation-ok env executor input runnable) (simp e)

  abbrev branch :
      SafetyAction
      → SafetyDecision
      → State env.V W
      → Result RunError (PipelineResult env.V) × State env.V W
  branch action decision = elim action [
    | block ↦ approve_blocked env executor input (called not_required) decision
    | require_approval ↦ approve_required env executor input (called not_required) decision
    | allow ↦ approve_allowed env executor input (called not_required) decision
  ]

  approve_decided :
      (policy : ApprovalSafetyPolicy) (history : List TransitionRecord) (world : W)
      → IsRunnable env input
      → input.safety_policy ≡ some policy
      → (decision : SafetyDecision) × (decision.safety_action
          ≡ action_of_rule (rule_for (tool_called env executor input) policy.rules))
        × (is_blank decision.decision_reason ≡ false)
        × (approve env executor input (run_in tool_pending history world (first ∷ []))
            ≡ branch decision.safety_action decision
                (run_in tool_pending history world (first ∷ [])))
  approve_decided policy history world runnable e =
      let tool = tool_called env executor input in
      let (decision, checked, action, reason) =
        decision-ok (env.hex decision_purpose) tool input.run_id (rule_for tool policy.rules)
          (tool_called-solid env executor input) runnable.run_named in
      (
        decision,
        action,
        reason,
        unfold approve decide make_safety_decision in
            rw (invocation-ok env executor input runnable) (simp e (rw checked)),
      )

  -- Where an action of the policy leads from step 1.
  abbrev pub LeadsToTool : ApprovalState → List TransitionRecord → W → Type 0
  LeadsToTool state history world =
      (history' : List TransitionRecord) × (step : ExecutionStepResult env.V) × IsSecond env
        executor input step
      × (approve env executor input (run_in tool_pending history world (first ∷ []))
          ≡ execute env executor input (called state)
              (run_in tool_running history' world (first ∷ step ∷ [])))

  abbrev pub Leads : SafetyAction → List TransitionRecord → W → Type 0
  Leads block history world =
      (history' : List TransitionRecord) × (step : ExecutionStepResult env.V) × IsSecond env
        executor input step
      × (step.status ≡ blocked)
      × (approve env executor input (run_in tool_pending history world (first ∷ []))
          ≡ finish_with env executor input none (run_in failed history' world (first ∷ step ∷ [])))
  Leads require_approval history world = LeadsToTool pending history world
  Leads allow history world = LeadsToTool not_required history world

  decision-Leads :
      (action : SafetyAction) (decision : SafetyDecision) (history : List TransitionRecord)
      (world : W)
      → IsRunnable env input
      → is_blank decision.decision_reason ≡ false
      → approve env executor input (run_in tool_pending history world (first ∷ []))
        ≡ branch action decision (run_in tool_pending history world (first ∷ []))
      → Leads action history world
  decision-Leads block decision history world runnable reason e =
      let (history', step, second, stopped, goes) =
        approve_blocked-goes env executor input decision history world runnable reason in
      (history', step, second, stopped, e ∙ goes)
  decision-Leads require_approval decision history world runnable reason e =
      let (history', step, second, goes) =
        approve_required-goes env executor input decision history world runnable reason in
      (history', step, second, e ∙ goes)
  decision-Leads allow decision history world runnable reason e =
      let (history', step, second, goes) =
        approve_allowed-goes env executor input decision history world runnable reason in
      (history', step, second, e ∙ goes)

  policy-Leads :
      (policy : Option ApprovalSafetyPolicy) (history : List TransitionRecord) (world : W)
      → IsRunnable env input
      → input.safety_policy ≡ policy
      → Leads (action_for policy (tool_called env executor input)) history world
  policy-Leads none history world runnable e =
      let (history', step, second, goes) =
        approve_default-goes env executor input history world runnable in
      (history', step, second, approve_plain history world runnable e ∙ goes)
  policy-Leads (some policy) history world runnable e =
      let (decision, action, reason, decided) = approve_decided policy history world runnable e in
      subst (λ a. Leads a history world) action
        (decision-Leads decision.safety_action decision history world runnable reason decided)

  -- A runnable input leads to what its policy prescribes.
  pub run-Leads :
      (world : W)
      → IsRunnable env input
      → (history : List TransitionRecord) × (run env executor input world
          ≡ approve env executor input (run_in tool_pending history world (first ∷ [])))
        × Leads (prescribed env executor input) history world
  run-Leads world runnable =
      let (history, reached) = run_prepared env executor input world runnable in
      (history, reached, policy-Leads input.safety_policy history world runnable refl)

  pub leads_to_tool :
      (action : SafetyAction) (history : List TransitionRecord) (world : W)
      → action ≢ block
      → Leads action history world
      → LeadsToTool (state_sent env executor input action) history world
  leads_to_tool block history world h leads = absurd (h refl)
  leads_to_tool require_approval history world h leads = leads
  leads_to_tool allow history world h leads = leads
