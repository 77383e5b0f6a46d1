-- ===== src/Step.antt =====
-- models/step_turn_lifecycle_contract.py: one step of a loop.
pub mod Types
pub mod Checks
pub mod Lifecycle
pub mod Rules
