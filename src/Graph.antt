-- ===== src/Graph.antt =====
-- models/multi_agent_session_graph_contract.py: the graph of the runs and agents of a session.
pub mod Types
pub mod Checks
pub mod Whole
pub mod Rules
pub mod Walks
