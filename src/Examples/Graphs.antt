-- ===== src/Examples/Graphs.antt =====
-- A session graph of one node.
use nova_harness.Prelude.{
  Known, Memᴰ, [], check_distinct, check_every, codes, count_if, int_eq, mem?, nat_eq, none, ok,
  pos, refer_to, refl, required, run_texts, text_eq, ◌∷◌, ◌≡◌,
}
use nova_harness.Graph.Checks.{
  check_branch_state_record, check_graph_checkpoint_record, check_join_state_record,
  check_session_graph_edge, check_session_graph_envelope, check_session_graph_metadata,
  check_session_graph_node,
}
use nova_harness.Graph.Types.{
  BranchStateRecord, GraphCheckpointRecord, JoinStateRecord, MultiAgentSessionGraph,
  SessionGraphEdge, SessionGraphEnvelope, SessionGraphMetadata, SessionGraphNode,
  SessionNodeType-discrete, active_graph, control_flow, running, session_node_type_eq,
  terminal_node, traversed,
}
use nova_harness.Graph.Walks.{along, stay, validate_ids_walks}
use nova_harness.Graph.Whole.{
  check_branch, check_checkpoint, check_ends, check_join, check_multi_agent_session_graph,
  check_parent, is_terminal_node, is_unknown_parent, node_ids_of, validate_ids,
}
use native.Mathlib.Decide.{ℕ_discrete}

abbrev example_session_graph_node : SessionGraphNode
example_session_graph_node = record {
  node_id = codes "node-id";
  node_type = terminal_node;
  label = none;
  run_id = none;
  agent_id = none;
  role_id = none;
  step_id = none;
  handoff_id = none;
  delegation_id = none;
  status = running;
  parent_node_id = none;
  input_refs = [];
  output_refs = [];
  created_at = codes "2024-01-01";
  updated_at = codes "2024-01-01";
}

abbrev example_session_graph_edge : SessionGraphEdge
example_session_graph_edge = record {
  edge_id = codes "edge-id";
  edge_type = control_flow;
  from_node_id = codes "node-id";
  to_node_id = codes "node-id";
  status = traversed;
  condition_ref = none;
  trigger_reason = none;
  created_at = codes "2024-01-01";
  traversed_at = none;
}

abbrev example_branch_state_record : BranchStateRecord
example_branch_state_record = record {
  branch_id = codes "branch-id";
  entry_node_id = codes "node-id";
  branch_node_ids = [];
  branch_reason = none;
  expected_completion_policy = none;
  active_node_ids = [];
  completed_node_ids = [];
  failed_node_ids = [];
  branch_status = codes "branch-status";
}

abbrev example_join_state_record : JoinStateRecord
example_join_state_record = record {
  join_id = codes "join-id";
  join_node_id = codes "node-id";
  incoming_node_ids = codes "node-id" ∷ [];
  required_completion_count = pos 1;
  completed_incoming_ids = [];
  join_policy = none;
  join_status = codes "join-status";
  merge_notes = none;
}

abbrev example_graph_checkpoint_record : GraphCheckpointRecord
example_graph_checkpoint_record = record {
  checkpoint_id = codes "checkpoint-id";
  graph_id = codes "graph-id";
  graph_status = active_graph;
  active_node_ids = [];
  waiting_node_ids = [];
  blocked_node_ids = [];
  last_traversed_edge_ids = [];
  snapshot_ref = none;
  created_at = codes "2024-01-01";
}

abbrev example_session_graph_metadata : SessionGraphMetadata
example_session_graph_metadata = record {
  graph_id = codes "graph-id";
  session_id = codes "session-id";
  root_run_id = none;
  supervisor_agent_id = none;
  graph_status = active_graph;
  entry_node_id = codes "node-id";
  terminal_node_ids = [];
  created_at = codes "2024-01-01";
  updated_at = codes "2024-01-01";
  version = codes "version";
}

abbrev example_multi_agent_session_graph : MultiAgentSessionGraph
example_multi_agent_session_graph = record {
  metadata = example_session_graph_metadata;
  nodes = example_session_graph_node ∷ [];
  edges = example_session_graph_edge ∷ [];
  branches = example_branch_state_record ∷ [];
  joins = example_join_state_record ∷ [];
  checkpoints = example_graph_checkpoint_record ∷ [];
}

abbrev example_session_graph_envelope : SessionGraphEnvelope
example_session_graph_envelope = record {
  envelope_id = codes "envelope-id";
  graph = example_multi_agent_session_graph;
}

unfoldable graph_env : Unit {0}
unfolding check_session_graph_node check_session_graph_edge check_branch_state_record
    check_join_state_record check_graph_checkpoint_record check_session_graph_metadata
    check_session_graph_envelope validate_ids check_multi_agent_session_graph check_distinct
    check_every check_parent check_ends check_branch check_join refer_to check_checkpoint
    is_unknown_parent is_terminal_node node_ids_of count_if required mem? run_texts
    SessionNodeType-discrete ℕ_discrete
graph_env = tt

graph_parts_accepted :
    (check_session_graph_node example_session_graph_node ≡ ok example_session_graph_node)
    × (check_session_graph_edge example_session_graph_edge ≡ ok example_session_graph_edge)
    × (check_branch_state_record example_branch_state_record ≡ ok example_branch_state_record)
    × (check_join_state_record example_join_state_record ≡ ok example_join_state_record)
    × (check_graph_checkpoint_record example_graph_checkpoint_record
        ≡ ok example_graph_checkpoint_record)
    × (check_session_graph_metadata example_session_graph_metadata
        ≡ ok example_session_graph_metadata)
    × (check_session_graph_envelope example_session_graph_envelope
        ≡ ok example_session_graph_envelope)
    × (check_multi_agent_session_graph example_multi_agent_session_graph
        ≡ ok example_multi_agent_session_graph)
unfolding graph_env
graph_parts_accepted = (refl, refl, refl, refl, refl, refl, refl, refl)

ids_validated : validate_ids example_multi_agent_session_graph ≡ ok tt
unfolding graph_env
ids_validated = refl

validate_ids_walks_example : Known (node_ids_of example_multi_agent_session_graph) (codes "node-id")
validate_ids_walks_example =
    validate_ids_walks example_multi_agent_session_graph (codes "node-id") ids_validated
      (along example_session_graph_edge (Memᴰ.head refl) refl stay)
