-- ===== src/Recovery.antt =====
-- models/retry_recovery_compensation_contract.py: failures, and how a run retries, recovers and compensates.
pub mod Types
pub mod Checks
pub mod Envelope
pub mod Rules
