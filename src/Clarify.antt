-- ===== src/Clarify.antt =====
-- models/clarification_resolution_contract.py: gaps of a request, and how they are resolved.
pub mod Types
pub mod Checks
pub mod Envelope
pub mod Rules
pub mod Answered
