-- ===== src/Risk.antt =====
-- models/risk_escalation_approval_contract.py: risks that are escalated to people, who approve or not.
pub mod Types
pub mod Checks
pub mod Envelope
pub mod Rules
pub mod People
