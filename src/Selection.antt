-- ===== src/Selection.antt =====
-- context_selection/*.py: which files, failures and docs a task's context gets.
pub mod Exclusions
pub mod Candidates
pub mod Scoring
pub mod Policy
pub mod Gathered
pub mod Ranked
pub mod Chosen
pub mod Selected
