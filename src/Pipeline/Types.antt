-- ===== src/Pipeline/Types.antt =====
-- The records of harness/pipeline.py, and what the run takes from outside of the program.
use nova_harness.Prelude.{Bool, List, Option, Text, none, some, ℕ}
use nova_harness.Assembly.{AssemblyError}
use nova_harness.Bench.{BenchError, BenchmarkRun}
use nova_harness.Delivery.{DeliveryError}
use nova_harness.Driver.{StateDriver, TriggerError}
use nova_harness.Safety.{ApprovalSafetyPolicy, SafetyDecision, SafetyError}
use nova_harness.Task.{TaskContract}
use nova_harness.Tool.{ToolError, ToolInvocation, ToolResult}
use nova_harness.Trace.{
  PolicyTrace, RetryTrace, RunTrace, StepType, TraceError, TraceEventStatus, VerificationTrace,
}

-- Where the run reads the wall clock.
pub data Moment : Type 0 where
  run_start run_end result_end tool_start tool_end : Moment
  step_start step_end : ℕ → Moment

-- What the run asks `uuid4` for.
pub data Purpose : Type 0 where
  invocation_purpose decision_purpose : Purpose
  assembly_purpose : ℕ → Purpose

-- The surroundings of a run: the Python values that dictionaries hold, with `str` of a dictionary;
-- `str.lower`; `str` of a ValidationError; the texts that the clock and `uuid4().hex[:8]` give.
pub record Env : Type 1 where
  pub V : Type 0
  pub of_text : Text → V
  pub of_bool : Bool → V
  pub render : List (Text × V) → Text
  pub lower : Text → Text
  pub describe : ToolError → Text
  pub now : Moment → Text
  pub hex : Purpose → Text

pub record ModelResponse : Type 0 where
  pub content : Text
  pub finish_reason : Text
  pub model_used : Text

pub record PipelineInput : Type 0 where
  pub task_contract : TaskContract
  pub run_id : Text
  pub model_name : Text
  pub safety_policy : Option ApprovalSafetyPolicy
  pub state_driver : Option StateDriver

pub record ExecutionStepResult (V : Type 0) : Type 0 where
  pub step_index : ℕ
  pub step_type : StepType
  pub status : TraceEventStatus
  pub started_at : Text
  pub finished_at : Option Text
  pub latency_seconds : Option ℕ
  pub tool_invocation : Option (ToolInvocation V)
  pub tool_result : Option (ToolResult V)
  pub safety_decision : Option SafetyDecision
  pub policy_trace : Option PolicyTrace
  pub verification_trace : Option VerificationTrace
  pub retry_trace : Option RetryTrace
  pub error : Option Text

pub record PipelineResult (V : Type 0) : Type 0 where
  pub run_id : Text
  pub task_id : Text
  pub success : Bool
  pub terminal_state : Text
  pub steps : List (ExecutionStepResult V)
  pub run_trace : RunTrace
  pub benchmark_run : Option BenchmarkRun
  pub error : Option Text

-- What escapes from a run: the ValidationErrors of the models that it builds, the ValueErrors of
-- `trigger` outside of a `try`, and what a custom tool executor raises.
pub data RunError : Type 0 where
  delivery_failed : DeliveryError → RunError
  assembly_failed : AssemblyError → RunError
  tool_failed : ToolError → RunError
  safety_failed : SafetyError → RunError
  trace_failed : TraceError → RunError
  bench_failed : BenchError → RunError
  trigger_failed : TriggerError → RunError
  executor_raised : Text → RunError

-- A step with nothing but its times; a step of the run fills in what it has.
abbrev pub bare_step :
    {V : Type 0} → ℕ → StepType → TraceEventStatus → ℕ → Text → Text → ExecutionStepResult V
bare_step index type status latency started finished = record {
  step_index = index;
  step_type = type;
  status = status;
  started_at = started;
  finished_at = some finished;
  latency_seconds = some latency;
  tool_invocation = none;
  tool_result = none;
  safety_decision = none;
  policy_trace = none;
  verification_trace = none;
  retry_trace = none;
  error = none;
}
