-- ===== src/Trace.antt =====
-- models/observability_trace.py: the trace of a run. Counts and indexes are natural numbers, and a
-- number of seconds is the natural number of its hundredths, so the validators that refuse negative
-- numbers have nothing left to refuse.
pub mod Shape
use nova_harness.Prelude.{
  Bool, Eq, List, Option, Result, Text, [], err, false, if◌then◌else◌, is_nil, is_some, length, ltb,
  nat_eq, none, not, ok, refuse, required, some, suc, text_eq, true, ℕ, ◌&&◌, ◌+◌, ◌==◌, ◌>>=◌,
  ◌>>◌, ◌∷◌,
}

pub data StepType : Type 0 where
  prompt_assembly context_selection tool_execution verification policy_check retry approval :
      StepType

pub data TraceEventStatus : Type 0 where
  success failure skipped blocked : TraceEventStatus

pub data PolicyOutcomeType : Type 0 where
  allowed_outcome required_approval blocked_outcome escalated : PolicyOutcomeType

unfoldable pub TraceEventStatus-discrete : Discrete TraceEventStatus
TraceEventStatus-discrete = hlevel

unfoldable pub PolicyOutcomeType-discrete : Discrete PolicyOutcomeType
PolicyOutcomeType-discrete = hlevel

instance abbrev pub trace_event_status_eq : Eq TraceEventStatus
trace_event_status_eq = record { eq? = TraceEventStatus-discrete }

instance abbrev pub policy_outcome_type_eq : Eq PolicyOutcomeType
policy_outcome_type_eq = record { eq? = PolicyOutcomeType-discrete }

pub record ToolTrace : Type 0 where
  pub tool_name : Text
  pub argument_summary : Text
  pub status : TraceEventStatus
  pub latency_seconds : ℕ
  pub error : Option Text

pub record PolicyTrace : Type 0 where
  pub policy_name : Text
  pub outcome : PolicyOutcomeType
  pub risk_level : Option Text
  pub reason : Text

pub record VerificationTrace : Type 0 where
  pub check_name : Text
  pub status : TraceEventStatus
  pub summary : Option Text

pub record RetryTrace : Type 0 where
  pub attempt : ℕ
  pub max_attempts : ℕ
  pub reason : Text
  pub backoff_delay_seconds : Option ℕ

pub record StepTrace : Type 0 where
  pub step_id : Text
  pub step_index : ℕ
  pub step_type : StepType
  pub status : TraceEventStatus
  pub started_at : Text
  pub finished_at : Option Text
  pub latency_seconds : Option ℕ
  pub tool : Option ToolTrace
  pub policy : Option PolicyTrace
  pub verification : Option VerificationTrace
  pub retry : Option RetryTrace
  pub context_item_ids : List Text

pub record TraceSummary : Type 0 where
  pub total_steps : ℕ
  pub successful_steps : ℕ
  pub failed_steps : ℕ
  pub blocked_steps : ℕ
  pub total_tool_calls : ℕ
  pub total_policy_checks : ℕ
  pub policy_blocks : ℕ
  pub total_retries : ℕ
  pub total_verification_checks : ℕ
  pub verification_failures : ℕ
  pub total_latency_seconds : ℕ

pub record RunTrace : Type 0 where
  pub run_id : Text
  pub task_id : Text
  pub prompt_assembly_id : Option Text
  pub steps : List StepTrace
  pub terminal_status : TraceEventStatus
  pub total_latency_seconds : ℕ
  pub started_at : Text
  pub finished_at : Option Text
  pub summary : Option TraceSummary

pub data TraceError : Type 0 where
  tool_trace_name_empty argument_summary_empty policy_name_empty policy_reason_empty : TraceError
  check_name_empty retry_reason_empty attempt_past_max step_id_empty : TraceError
  step_finished_at_missing step_latency_missing step_counts_inconsistent : TraceError
  trace_run_id_empty trace_task_id_empty no_step : TraceError
  step_index_not_sequential : ℕ → ℕ → TraceError
  run_finished_at_missing summary_steps_differ : TraceError

unfoldable pub check_tool_trace : ToolTrace → Result TraceError ToolTrace
check_tool_trace t = do
  tool_name ← required tool_trace_name_empty t.tool_name
  argument_summary ← required argument_summary_empty t.argument_summary
  ok (record t { tool_name = tool_name; argument_summary = argument_summary })

unfoldable pub check_policy_trace : PolicyTrace → Result TraceError PolicyTrace
check_policy_trace p = do
  policy_name ← required policy_name_empty p.policy_name
  reason ← required policy_reason_empty p.reason
  ok (record p { policy_name = policy_name; reason = reason })

unfoldable pub check_verification_trace : VerificationTrace → Result TraceError VerificationTrace
check_verification_trace v = do
  check_name ← required check_name_empty v.check_name
  ok (record v { check_name = check_name })

unfoldable pub check_retry_trace : RetryTrace → Result TraceError RetryTrace
check_retry_trace r = do
  reason ← required retry_reason_empty r.reason
  refuse (ltb 0 r.max_attempts && ltb r.max_attempts r.attempt) attempt_past_max
  ok (record r { reason = reason })

-- `status in (SUCCESS, FAILURE, BLOCKED)`
unfoldable pub is_terminal_status : TraceEventStatus → Bool
is_terminal_status skipped = false
is_terminal_status _ = true

-- `not x` for an optional string: it is None or empty.
abbrev pub no_stamp : Option Text → Bool
no_stamp none = true
no_stamp (some t) = is_nil t

unfoldable pub check_step : StepTrace → Result TraceError StepTrace
check_step s = do
  step_id ← required step_id_empty s.step_id
  refuse (is_terminal_status s.status && no_stamp s.finished_at) step_finished_at_missing
  refuse (is_terminal_status s.status && not (is_some s.latency_seconds)) step_latency_missing
  ok (record s { step_id = step_id })

unfoldable pub check_summary : TraceSummary → Result TraceError TraceSummary
check_summary s = do
  refuse (ltb s.total_steps (s.successful_steps + s.failed_steps + s.blocked_steps))
      step_counts_inconsistent
  ok s

-- The loop of `steps_have_monotonic_indexes`, from index `i` on.
unfoldable pub check_indexes : ℕ → List StepTrace → Result TraceError (Unit {0})
check_indexes i [] = ok tt
check_indexes i (step ∷ steps) =
    let rest = check_indexes (suc i) steps in
    if step.step_index == i then rest else err (step_index_not_sequential i step.step_index)

unfoldable pub summary_steps_match : RunTrace → Result TraceError (Unit {0})
summary_steps_match r = elim r.summary [
  | none ↦ ok tt
  | some summary ↦ refuse (not (summary.total_steps == length r.steps)) summary_steps_differ
]

unfoldable pub check_run_trace : RunTrace → Result TraceError RunTrace
check_run_trace r = do
  run_id ← required trace_run_id_empty r.run_id
  task_id ← required trace_task_id_empty r.task_id
  refuse (is_nil r.steps) no_step
  check_indexes 0 r.steps
  refuse (is_terminal_status r.terminal_status && no_stamp r.finished_at) run_finished_at_missing
  summary_steps_match r
  ok (record r { run_id = run_id; task_id = task_id })
