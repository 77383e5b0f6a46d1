-- ===== src/Budget.antt =====
-- models/execution_budget_resource_contract.py: budgets of an execution and what is left of them.
pub mod Types
pub mod Checks
pub mod Envelope
pub mod Rules
