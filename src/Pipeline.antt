-- ===== src/Pipeline.antt =====
-- harness/pipeline.py: one run of a task, from its contract to its result. `Types` has the records,
-- `Act` the statements that change the driver or raise, `Build` the bundle and the prompt, `Criteria`
-- the checks of an output, `Outcome` the result, `Execute` and `Run` the executor.
pub mod Driven
pub mod Client
pub mod Refines
pub mod Types
pub mod Act
pub mod Build
pub mod Criteria
pub mod Outcome
pub mod Execute
pub mod Run
pub mod Tracing
pub mod Prepared
pub mod Executed
pub mod Called
pub mod Approvals
pub mod Approved
pub mod Leads
pub mod Complete
pub mod Plain
pub mod Raised
pub mod Refused
pub mod Shadowed
pub mod Generated
pub mod Verified
