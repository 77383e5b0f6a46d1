-- ===== src/Graph/Checks.antt =====
-- The validators of the parts of models/multi_agent_session_graph_contract.py.
use nova_harness.Prelude.{
  ModelError, Result, blank, codes, is_nil, length, ltb_ℤ, ok, out_of_range, pos, refuse,
  refused_by, solid, too_few, ◌>>=◌, ◌>>◌,
}
use nova_harness.Graph.Types.{
  BranchStateRecord, GraphCheckpointRecord, JoinStateRecord, SessionGraphEdge, SessionGraphEnvelope,
  SessionGraphMetadata, SessionGraphNode,
}

unfoldable pub check_session_graph_node : SessionGraphNode → Result ModelError SessionGraphNode
check_session_graph_node x = do
  node_id ← solid (codes "node_id") x.node_id
  ok (record x { node_id = node_id })

unfoldable pub check_session_graph_edge : SessionGraphEdge → Result ModelError SessionGraphEdge
check_session_graph_edge x = do
  edge_id ← solid (codes "edge_id") x.edge_id
  refuse (is_nil x.from_node_id) (blank (codes "from_node_id"))
  refuse (is_nil x.to_node_id) (blank (codes "to_node_id"))
  ok (record x { edge_id = edge_id })

unfoldable pub check_branch_state_record : BranchStateRecord → Result ModelError BranchStateRecord
check_branch_state_record x = do
  branch_id ← solid (codes "branch_id") x.branch_id
  refuse (is_nil x.entry_node_id) (blank (codes "entry_node_id"))
  ok (record x { branch_id = branch_id })

unfoldable pub check_join_state_record : JoinStateRecord → Result ModelError JoinStateRecord
check_join_state_record x = do
  join_id ← solid (codes "join_id") x.join_id
  refuse (is_nil x.join_node_id) (blank (codes "join_node_id"))
  refuse (is_nil x.incoming_node_ids) (too_few (codes "incoming_node_ids"))
  refuse (ltb_ℤ x.required_completion_count (pos 1))
      (out_of_range (codes "required_completion_count"))
  refuse (ltb_ℤ (pos (length x.incoming_node_ids)) x.required_completion_count)
      (refused_by (codes "completion_count_not_exceed_incoming"))
  ok (record x { join_id = join_id })

unfoldable pub check_graph_checkpoint_record :
    GraphCheckpointRecord → Result ModelError GraphCheckpointRecord
check_graph_checkpoint_record x = do
  checkpoint_id ← solid (codes "checkpoint_id") x.checkpoint_id
  graph_id ← solid (codes "graph_id") x.graph_id
  ok (record x { checkpoint_id = checkpoint_id; graph_id = graph_id })

unfoldable pub check_session_graph_metadata :
    SessionGraphMetadata → Result ModelError SessionGraphMetadata
check_session_graph_metadata x = do
  graph_id ← solid (codes "graph_id") x.graph_id
  session_id ← solid (codes "session_id") x.session_id
  entry_node_id ← solid (codes "entry_node_id") x.entry_node_id
  ok (record x { graph_id = graph_id; session_id = session_id; entry_node_id = entry_node_id })

unfoldable pub check_session_graph_envelope :
    SessionGraphEnvelope → Result ModelError SessionGraphEnvelope
check_session_graph_envelope x = do
  envelope_id ← solid (codes "envelope_id") x.envelope_id
  ok (record x { envelope_id = envelope_id })
