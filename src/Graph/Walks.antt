-- ===== src/Graph/Walks.antt =====
-- Walks along the edges of a session graph of models/multi_agent_session_graph_contract.py.
use nova_harness.Prelude.{All, All-Memᴰ, Known, List, Memᴰ, Text, int_eq, nat_eq, ok, text_eq, ◌≡◌}
use nova_harness.Graph.Rules.{validate_ids_iff}
use nova_harness.Graph.Types.{MultiAgentSessionGraph, SessionGraphEdge, session_node_type_eq}
use nova_harness.Graph.Whole.{node_ids_of, validate_ids}

pub data Walk (edges : List SessionGraphEdge) : Text → Text → Type 0 where
  stay : {a : Text} → Walk edges a a
  along :
      {a b : Text} (e : SessionGraphEdge)
      → Memᴰ e edges
      → e.from_node_id ≡ a
      → Walk edges e.to_node_id b
      → Walk edges a b

stays_inside :
    (ids : List Text) (edges : List SessionGraphEdge) {a b : Text}
    → All (λ e. Known ids e.from_node_id × Known ids e.to_node_id) edges
    → Known ids a
    → Walk edges a b
    → Known ids b
stays_inside ids edges known start stay = start
stays_inside ids edges known start (along e listed from rest) =
    let ends =
      All-Memᴰ (λ e. Known ids e.from_node_id × Known ids e.to_node_id) edges known listed in
    stays_inside ids edges known ends.1 rest

-- In an accepted graph no walk from the entry node leads to an id that is no node's.
pub validate_ids_walks :
    (graph : MultiAgentSessionGraph) (id : Text)
    → validate_ids graph ≡ ok tt
    → Walk graph.edges graph.metadata.entry_node_id id
    → Known (node_ids_of graph) id
validate_ids_walks graph id accepted walk =
    let linked = (validate_ids_iff graph).0 accepted in
    stays_inside (node_ids_of graph) graph.edges linked.ends_known linked.entry_known walk
