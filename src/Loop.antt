-- ===== src/Loop.antt =====
-- models/running_loop_contract.py: a loop of iterations over the tasks of a run.
pub mod Types
pub mod Checks
pub mod Envelope
pub mod Rules
