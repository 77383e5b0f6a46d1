-- ===== src/Graph/Whole.antt =====
-- `MultiAgentSessionGraph.validate_ids` of models/multi_agent_session_graph_contract.py, loop by loop.
use nova_harness.Prelude.{
  Bool, List, ModelError, Option, Result, Text, [], check_distinct, check_every, codes, count_if,
  false, int_eq, is_nil, map, mem?, nat_eq, none, not, ok, refer_to, refuse, refused_by, some,
  text_eq, unknown_reference, ◌&&◌, ◌==◌, ◌>>◌,
}
use nova_harness.Graph.Types.{
  BranchStateRecord, GraphCheckpointRecord, JoinStateRecord, MultiAgentSessionGraph,
  SessionGraphEdge, SessionGraphNode, session_node_type_eq, terminal_node,
}

module _ (node_ids : List Text) where
  -- `text and text not in node_ids`
  unfoldable pub is_unknown_parent : Option Text → Bool
  is_unknown_parent none = false
  is_unknown_parent (some t) = not (is_nil t) && not (mem? t node_ids)

  unfoldable pub check_parent : SessionGraphNode → Result ModelError (Unit {0})
  check_parent n = refuse (is_unknown_parent n.parent_node_id) (refused_by (codes "parent_node_id"))

  unfoldable pub check_ends : SessionGraphEdge → Result ModelError (Unit {0})
  check_ends e = do
    refer_to node_ids (codes "from_node_id") e.from_node_id
    refer_to node_ids (codes "to_node_id") e.to_node_id

  unfoldable pub check_branch : BranchStateRecord → Result ModelError (Unit {0})
  check_branch b = do
    refer_to node_ids (codes "entry_node_id") b.entry_node_id
    check_every (refer_to node_ids (codes "branch_node_ids")) b.branch_node_ids

  unfoldable pub check_join : JoinStateRecord → Result ModelError (Unit {0})
  check_join j = do
    refer_to node_ids (codes "join_node_id") j.join_node_id
    check_every (refer_to node_ids (codes "incoming_node_ids")) j.incoming_node_ids

unfoldable pub check_checkpoint : Text → GraphCheckpointRecord → Result ModelError (Unit {0})
check_checkpoint graph_id cp =
    refuse (not (cp.graph_id == graph_id)) (unknown_reference (codes "checkpoints") cp.graph_id)

unfoldable pub is_terminal_node : SessionGraphNode → Bool
is_terminal_node n = n.node_type == terminal_node

-- `_node_ids`
unfoldable pub node_ids_of : MultiAgentSessionGraph → List Text
node_ids_of graph = map (λ n. n.node_id) graph.nodes

unfoldable pub validate_ids : MultiAgentSessionGraph → Result ModelError (Unit {0})
validate_ids graph = do
  let node_ids = node_ids_of graph
  check_distinct (λ n. n.node_id) (codes "node_id") (check_parent node_ids) [] graph.nodes
  check_distinct (λ e. e.edge_id) (codes "edge_id") (check_ends node_ids) [] graph.edges
  check_every (check_branch node_ids) graph.branches
  check_every (check_join node_ids) graph.joins
  refuse (count_if is_terminal_node graph.nodes == 0) (refused_by (codes "terminal_node"))
  refer_to node_ids (codes "entry_node_id") graph.metadata.entry_node_id
  check_every (check_checkpoint graph.metadata.graph_id) graph.checkpoints

-- The construction of a graph from parts that have been validated.
unfoldable pub check_multi_agent_session_graph :
    MultiAgentSessionGraph → Result ModelError MultiAgentSessionGraph
check_multi_agent_session_graph graph = validate_ids graph >> ok graph
