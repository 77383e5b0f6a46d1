-- ===== src/Capability.antt =====
-- models/capability_negotiation_contract.py: what one party asks for and another offers.
pub mod Types
pub mod Checks
pub mod Envelope
pub mod Rules
