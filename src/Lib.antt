-- ===== src/Lib.antt =====
-- Nova-Harness: a harness that runs one coding task through a state machine.
--
-- The harness (harness/pipeline.py, `PipelineExecutor.run`) takes a task contract and drives a run:
-- it builds the context and the prompt, asks the safety policy about the tool, calls the tool or the
-- model, checks the output against the criteria, and reports a trace and a benchmark verdict. Each
-- move is an event of a state machine that `StateDriver.trigger` takes. What the parts exchange are
-- models that check themselves when they are built.
--
-- Files and what they model:
--   Machine      models/orchestration_state_machine.py: states, events, rules, `check_machine` (the
--                validators), `default_machine` in Machine/Defaults; Machine/Valid says what is valid
--   Driver       harness/state_driver.py: `trigger`, `available_events`, `is_terminal`; Driver/Firing
--                has the branches of `trigger`, Driver/History what histories say, Driver/Progress
--                which calls are left, Driver/Default the runs of the default machine
--   Task         models/task_contract.py; Task/Scope the paths, Task/Contract the contract
--   Safety       models/approval_safety.py; Safety/Rules the rules, Safety/Defaults the default policy
--   Trace        models/observability_trace.py; Trace/Shape
--   Assembly     models/prompt_assembly.py
--   Delivery     models/context_delivery.py
--   Tool         models/tool_interface.py
--   Bench        models/benchmark.py: what the pipeline builds, Bench/Suite the rest; Bench/Bounds
--   Pipeline     harness/pipeline.py: Types the records, Act the statements, Build the helpers that
--                build models, Criteria `_check_criterion`, Outcome `_build_result`, Execute and Run
--                the body of `run`, cut at its steps; Tracing, Prepared, Executed, Called,
--                Approvals, Approved, Leads, Verified, Complete, Generated, Plain, Raised and Refused
--                follow a run through; Driven has the `trigger` calls of each step, Client those
--                of a run, Refines what they are to the driver; Shadowed is about rules of a policy
--   Retry        models/retry_recovery.py; Retry/Rules, and Retry/Defaults the default policy
--   Selection    context_selection/*.py: Exclusions, Candidates and Scoring as the files of that name,
--                Policy `ContextSelectionPolicy.select`; Gathered, Ranked, Chosen and Selected say
--                which candidates there are, their order, one loop of `select`, and the result
--   Join         models/parallel_work_join_contract.py
--   Graph        models/multi_agent_session_graph_contract.py
--   Done         models/acceptance_done_contract.py
--   Budget       models/execution_budget_resource_contract.py
--   Loop         models/running_loop_contract.py
--   Step         models/step_turn_lifecycle_contract.py
--   Recovery     models/retry_recovery_compensation_contract.py
--   Clarify      models/clarification_resolution_contract.py
--   Risk         models/risk_escalation_approval_contract.py
--   Capability   models/capability_negotiation_contract.py
--                Each of these ten has its records in Types, the validators of its parts in Checks,
--                those of the whole in Envelope (Graph/Whole, Step/Lifecycle), and in Rules what the
--                validators accept; Graph/Walks is about the walks along the edges of a graph,
--                Risk/People and Clarify/Answered about envelopes of parts that were validated
--   Prelude      lists, texts, results and Boolean tests; Examples concrete inputs
--
-- How the code corresponds. A model with validators is a record, and `check_...` is the construction:
-- it returns the instance, with the texts that the validators strip, or the error of the first
-- validator that raises, a constructor in place of its text. A function that raises ValueError
-- returns a `Result`. A `str` is the list of its code points, a dictionary an association list.
-- `run` passes a state: the driver, the world that tools and providers may change, and the steps so
-- far; what was done before an exception stays done. The clock, `uuid4`, `str` of a dictionary,
-- `str.lower` and the text of a ValidationError are the fields of `Env`; the tool executor and the
-- model provider are functions of the caller, who may raise. Latencies and metrics are counted in
-- hundredths, as ℕ, as are the counts of the traces, so that the checks for negative numbers hold.
-- All loops run over lists, so no fuel is used. Sets of the selection are lists of which only
-- membership is asked; scores and caps are ℕ (a negative cap selects nothing, as 0 does).
-- In the ten contracts an envelope is checked from parts that are validated, errors are `ModelError`
-- (the field or the validator that refuses), time stamps are texts of which only the presence is
-- asked of, `int` is ℤ, and a `float` is counted: hundredths for confidences, scores and scales,
-- thousandths for amounts of a budget, which are exact.
--
-- Not modelled: the time stamps of history entries, `PipelineResult.durable_state`,
-- `BenchmarkRun.notes`, `ModelResponse.usage`, `PipelineInput.harness_version` (written, and read by
-- nothing of the run); harness/model_provider.py (HTTP); integration_slice.py (a script); the other
-- contracts under models/, which the pipeline does not call.
mod Prelude
pub mod Machine
pub mod Driver
pub mod Task
pub mod Delivery
pub mod Assembly
pub mod Tool
pub mod Safety
pub mod Trace
pub mod Bench
pub mod Pipeline
pub mod Join
pub mod Graph
pub mod Done
pub mod Budget
pub mod Loop
pub mod Step
pub mod Recovery
pub mod Clarify
pub mod Capability
pub mod Risk
pub mod Retry
pub mod Selection
mod Examples
