-- ===== src/Examples.antt =====
-- Concrete inputs at which the theorems apply.
mod Contracts
mod Machines
mod Runs
mod Clients
mod Choices
mod Benches
mod Retries
mod Joins
mod Capabilities
mod Risks
mod Recoveries
mod Clarifies
mod Steps
mod Loops
mod Budgets
mod Dones
mod Graphs
