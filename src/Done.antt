-- ===== src/Done.antt =====
-- models/acceptance_done_contract.py: when a task is accepted as done.
pub mod Types
pub mod Checks
pub mod Envelope
pub mod Rules
