-- ===== src/Graph/Rules.antt =====
-- Which session graphs of models/multi_agent_session_graph_contract.py the validator accepts.
-- A parent, if one is named, is a node.
use nova_harness.Prelude.{
  All, Distinct, Known, List, Option, Text, [], refer_to_each_iff, arith, check_distinct_means,
  check_every, check_every_means, codes, count_if, false, int_eq, map, mem?, nat_eq, none, ok,
  refer_to, refer_to_iff, refl, some, text_eq, true, ◌==◌, ◌>>◌, ◌↔◌, ◌∷◌, ◌≡◌,
}
use nova_harness.Graph.Types.{
  BranchStateRecord, GraphCheckpointRecord, JoinStateRecord, MultiAgentSessionGraph,
  SessionGraphEdge, SessionGraphNode, session_node_type_eq, terminal_node,
}
use nova_harness.Graph.Whole.{
  check_branch, check_checkpoint, check_ends, check_join, check_parent, is_terminal_node,
  is_unknown_parent, node_ids_of, validate_ids,
}

abbrev pub HasParent : List Text → Option Text → Type 0
HasParent node_ids none = Unit
HasParent node_ids (some []) = Unit
HasParent node_ids (some (c ∷ t)) = mem? (c ∷ t) node_ids ≡ true

module _ (node_ids : List Text) where
  parent_iff :
      (parent : Option Text)
      → (is_unknown_parent node_ids parent ≡ false) ↔ HasParent node_ids parent
  unfolding is_unknown_parent
  parent_iff none = ((λ h. tt), (λ p. refl))
  parent_iff (some []) = ((λ h. tt), (λ p. refl))
  parent_iff (some (c ∷ t)) = ((λ h. ground arith), (λ p. ground arith))

  check_parent_iff :
      (n : SessionGraphNode)
      → (check_parent node_ids n ≡ ok tt) ↔ HasParent node_ids n.parent_node_id
  unfolding check_parent
  check_parent_iff n =
      let parent = parent_iff n.parent_node_id in
      ((λ h. parent.0 (ground arith)), (λ p. ground (arith, parent.1 p)))

  check_ends_iff :
      (e : SessionGraphEdge)
      → (check_ends node_ids e ≡ ok tt)
        ↔ (Known node_ids e.from_node_id × Known node_ids e.to_node_id)
  unfolding check_ends refer_to
  check_ends_iff e = ((λ h. (ground arith, ground arith)), (λ k. ground (arith, k.0, k.1)))

  listed_iff :
      (field one : Text) (first : Text) (rest : List Text)
      → ((refer_to node_ids one first >> check_every (refer_to node_ids field) rest) ≡ ok tt)
        ↔ (Known node_ids first × All (Known node_ids) rest)
  listed_iff field one first rest =
      let head = refer_to_iff node_ids one first in
      let tail = refer_to_each_iff node_ids field (λ id. id) rest in
      (
        (λ h. (head.0 (ground arith), tail.0 (ground arith))),
        (λ k. ground (arith, head.1 k.0, tail.1 k.1)),
      )

  check_branch_iff :
      (b : BranchStateRecord)
      → (check_branch node_ids b ≡ ok tt)
        ↔ (Known node_ids b.entry_node_id × All (Known node_ids) b.branch_node_ids)
  unfolding check_branch
  check_branch_iff b =
      listed_iff (codes "branch_node_ids") (codes "entry_node_id") b.entry_node_id b.branch_node_ids

  check_join_iff :
      (j : JoinStateRecord)
      → (check_join node_ids j ≡ ok tt)
        ↔ (Known node_ids j.join_node_id × All (Known node_ids) j.incoming_node_ids)
  unfolding check_join
  check_join_iff j =
      listed_iff (codes "incoming_node_ids") (codes "join_node_id") j.join_node_id
        j.incoming_node_ids

check_checkpoint_iff :
    (graph_id : Text) (cp : GraphCheckpointRecord)
    → (check_checkpoint graph_id cp ≡ ok tt) ↔ (cp.graph_id ≡ graph_id)
unfolding check_checkpoint
check_checkpoint_iff graph_id cp = ((λ h. ground arith), (λ e. ground arith))

terminal_iff :
    (nodes : List SessionGraphNode)
    → ((count_if is_terminal_node nodes == 0) ≡ false)
      ↔ (mem? terminal_node (map (λ n. n.node_type) nodes) ≡ true)
unfolding count_if is_terminal_node mem?
terminal_iff [] = ((λ h. ground arith), (λ h. ground arith))
terminal_iff (n ∷ nodes) =
    let ih = terminal_iff nodes in ((λ h. ground (arith, ih.0)), (λ h. ground (arith, ih.1)))

-- All ids differ where they must, and all references are to nodes of the graph, which has a terminal
-- node; the checkpoints are its own.
pub record IsLinked (graph : MultiAgentSessionGraph) : Type 0 where
  pub nodes_differ : Distinct (node_ids_of graph)
  pub parents_known : All (λ n. HasParent (node_ids_of graph) n.parent_node_id) graph.nodes
  pub edges_differ : Distinct (map (λ e. e.edge_id) graph.edges)
  pub ends_known :
      All
        (λ e. Known (node_ids_of graph) e.from_node_id × Known (node_ids_of graph) e.to_node_id)
        graph.edges
  pub branches_known :
      All
        (λ b.
          Known (node_ids_of graph) b.entry_node_id
          × All (Known (node_ids_of graph)) b.branch_node_ids)
        graph.branches
  pub joins_known :
      All
        (λ j.
          Known (node_ids_of graph) j.join_node_id
          × All (Known (node_ids_of graph)) j.incoming_node_ids)
        graph.joins
  pub ends : mem? terminal_node (map (λ n. n.node_type) graph.nodes) ≡ true
  pub entry_known : Known (node_ids_of graph) graph.metadata.entry_node_id
  pub own_checkpoints : All (λ cp. cp.graph_id ≡ graph.metadata.graph_id) graph.checkpoints

pub validate_ids_iff :
    (graph : MultiAgentSessionGraph) → (validate_ids graph ≡ ok tt) ↔ IsLinked graph
unfolding validate_ids node_ids_of
validate_ids_iff graph =
    let ids = node_ids_of graph in
    let nodes =
      check_distinct_means (check_parent ids) (λ n. n.node_id) (codes "node_id") graph.nodes
        (check_parent_iff ids) in
    let edges =
      check_distinct_means (check_ends ids) (λ e. e.edge_id) (codes "edge_id") graph.edges
        (check_ends_iff ids) in
    let branches = check_every_means (check_branch ids) graph.branches (check_branch_iff ids) in
    let joins = check_every_means (check_join ids) graph.joins (check_join_iff ids) in
    let terminal = terminal_iff graph.nodes in
    let entry = refer_to_iff ids (codes "entry_node_id") graph.metadata.entry_node_id in
    let checkpoints =
      check_every_means (check_checkpoint graph.metadata.graph_id) graph.checkpoints
        (check_checkpoint_iff graph.metadata.graph_id) in
    (
      (λ h. record {
        nodes_differ = (nodes.0 (ground arith)).0;
        parents_known = (nodes.0 (ground arith)).1;
        edges_differ = (edges.0 (ground arith)).0;
        ends_known = (edges.0 (ground arith)).1;
        branches_known = branches.0 (ground arith);
        joins_known = joins.0 (ground arith);
        ends = terminal.0 (ground arith);
        entry_known = entry.0 (ground arith);
        own_checkpoints = checkpoints.0 (ground arith);
      }),
      (λ l. ground (
        arith,
        nodes.1 (l.nodes_differ, l.parents_known),
        edges.1 (l.edges_differ, l.ends_known),
        branches.1 l.branches_known,
        joins.1 l.joins_known,
        terminal.1 l.ends,
        entry.1 l.entry_known,
        checkpoints.1 l.own_checkpoints,
      )),
    )
