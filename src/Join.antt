-- ===== src/Join.antt =====
-- models/parallel_work_join_contract.py: work that is split into branches, and how the branches join.
pub mod Types
pub mod Checks
pub mod Envelope
pub mod Rules
