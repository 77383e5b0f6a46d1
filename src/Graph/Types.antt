-- ===== src/Graph/Types.antt =====
-- The models of models/multi_agent_session_graph_contract.py. A time stamp is the text that stands for it.
use nova_harness.Prelude.{Eq, List, Option, Text, ℤ}

pub data SessionNodeType : Type 0 where
  parent_run child_run agent_role step_node handoff delegation routing_decision : SessionNodeType
  approval_gate verification_step join_node terminal_node : SessionNodeType

pub data SessionEdgeType : Type 0 where
  control_flow delegates_to returns_to handoff_to depends_on conditional_branch : SessionEdgeType
  joins_into blocked_by : SessionEdgeType

pub data NodeStatus : Type 0 where
  pending ready running waiting blocked_node completed_node failed_node : NodeStatus
  cancelled_node : NodeStatus

pub data EdgeStatus : Type 0 where
  inactive active_edge traversed blocked_edge cancelled_edge : EdgeStatus

pub data GraphStatus : Type 0 where
  draft active_graph paused recovering completed_graph failed_graph : GraphStatus
  cancelled_graph : GraphStatus

pub record SessionGraphNode : Type 0 where
  pub node_id : Text
  pub node_type : SessionNodeType
  pub label : Option Text
  pub run_id : Option Text
  pub agent_id : Option Text
  pub role_id : Option Text
  pub step_id : Option Text
  pub handoff_id : Option Text
  pub delegation_id : Option Text
  pub status : NodeStatus
  pub parent_node_id : Option Text
  pub input_refs : List Text
  pub output_refs : List Text
  pub created_at : Text
  pub updated_at : Text

pub record SessionGraphEdge : Type 0 where
  pub edge_id : Text
  pub edge_type : SessionEdgeType
  pub from_node_id : Text
  pub to_node_id : Text
  pub status : EdgeStatus
  pub condition_ref : Option Text
  pub trigger_reason : Option Text
  pub created_at : Text
  pub traversed_at : Option Text

pub record BranchStateRecord : Type 0 where
  pub branch_id : Text
  pub entry_node_id : Text
  pub branch_node_ids : List Text
  pub branch_reason : Option Text
  pub expected_completion_policy : Option Text
  pub active_node_ids : List Text
  pub completed_node_ids : List Text
  pub failed_node_ids : List Text
  pub branch_status : Text

pub record JoinStateRecord : Type 0 where
  pub join_id : Text
  pub join_node_id : Text
  pub incoming_node_ids : List Text
  pub required_completion_count : ℤ
  pub completed_incoming_ids : List Text
  pub join_policy : Option Text
  pub join_status : Text
  pub merge_notes : Option Text

pub record GraphCheckpointRecord : Type 0 where
  pub checkpoint_id : Text
  pub graph_id : Text
  pub graph_status : GraphStatus
  pub active_node_ids : List Text
  pub waiting_node_ids : List Text
  pub blocked_node_ids : List Text
  pub last_traversed_edge_ids : List Text
  pub snapshot_ref : Option Text
  pub created_at : Text

pub record SessionGraphMetadata : Type 0 where
  pub graph_id : Text
  pub session_id : Text
  pub root_run_id : Option Text
  pub supervisor_agent_id : Option Text
  pub graph_status : GraphStatus
  pub entry_node_id : Text
  pub terminal_node_ids : List Text
  pub created_at : Text
  pub updated_at : Text
  pub version : Text

pub record MultiAgentSessionGraph : Type 0 where
  pub metadata : SessionGraphMetadata
  pub nodes : List SessionGraphNode
  pub edges : List SessionGraphEdge
  pub branches : List BranchStateRecord
  pub joins : List JoinStateRecord
  pub checkpoints : List GraphCheckpointRecord

pub record SessionGraphEnvelope : Type 0 where
  pub envelope_id : Text
  pub graph : MultiAgentSessionGraph

unfoldable pub SessionNodeType-discrete : Discrete SessionNodeType
SessionNodeType-discrete = hlevel

instance abbrev pub session_node_type_eq : Eq SessionNodeType
session_node_type_eq = record { eq? = SessionNodeType-discrete }
