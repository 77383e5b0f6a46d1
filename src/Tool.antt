-- ===== src/Tool.antt =====
-- models/tool_interface.py: tools, their invocations and results. `V` stands for the Python values
-- that the dictionaries of the type `Dict[str, Any]` hold.
use nova_harness.Prelude.{
  Bool, Eq, List, Option, Result, Text, is_nil, nat_eq, none, ok, refuse, required, some, text_eq,
  true, ◌&&◌, ◌==◌, ◌>>=◌, ◌>>◌,
}

pub data ExecutionMode : Type 0 where
  read_only mutating execution : ExecutionMode

pub data ApprovalState : Type 0 where
  not_required pending approved rejected : ApprovalState

pub data ToolStatus : Type 0 where
  tool_success tool_error tool_blocked : ToolStatus

unfoldable pub ApprovalState-discrete : Discrete ApprovalState
ApprovalState-discrete = hlevel

unfoldable pub ToolStatus-discrete : Discrete ToolStatus
ToolStatus-discrete = hlevel

instance abbrev pub approval_state_eq : Eq ApprovalState
approval_state_eq = record { eq? = ApprovalState-discrete }

instance abbrev pub tool_status_eq : Eq ToolStatus
tool_status_eq = record { eq? = ToolStatus-discrete }

pub record ToolDefinition (V : Type 0) : Type 0 where
  pub name : Text
  pub description : Text
  pub input_schema : List (Text × V)
  pub output_schema : Option (List (Text × V))
  pub requires_approval : Bool
  pub execution_mode : ExecutionMode
  pub tags : List Text
  pub enabled : Bool

pub record ToolInvocation (V : Type 0) : Type 0 where
  pub invocation_id : Text
  pub tool_name : Text
  pub arguments : List (Text × V)
  pub requested_by_task_id : Text
  pub requested_by_agent : Text
  pub approval_state : ApprovalState

pub record ToolResult (V : Type 0) : Type 0 where
  pub invocation_id : Text
  pub tool_name : Text
  pub status : ToolStatus
  pub output : Option (List (Text × V))
  pub error : Option Text
  pub artifacts : List Text
  pub started_at : Option Text
  pub finished_at : Option Text

pub data ToolError : Type 0 where
  definition_name_empty definition_description_empty input_schema_empty : ToolError
  invocation_id_empty invocation_tool_name_empty : ToolError
  requested_by_task_id_empty requested_by_agent_empty already_approved : ToolError
  result_invocation_id_empty result_tool_name_empty : ToolError
  success_without_output error_without_message blocked_without_message : ToolError

-- `not x` for an optional string or dictionary: it is None or empty.
abbrev pub is_falsy {ℓ} : {A : Type ℓ} → Option (List A) → Bool
is_falsy none = true
is_falsy (some xs) = is_nil xs

module _ {V : Type 0} where
  unfoldable pub check_definition : ToolDefinition V → Result ToolError (ToolDefinition V)
  check_definition d = do
    name ← required definition_name_empty d.name
    description ← required definition_description_empty d.description
    refuse (is_nil d.input_schema) input_schema_empty
    ok (record d { name = name; description = description })

  unfoldable pub check_invocation : ToolInvocation V → Result ToolError (ToolInvocation V)
  check_invocation i = do
    invocation_id ← required invocation_id_empty i.invocation_id
    tool_name ← required invocation_tool_name_empty i.tool_name
    requested_by_task_id ← required requested_by_task_id_empty i.requested_by_task_id
    requested_by_agent ← required requested_by_agent_empty i.requested_by_agent
    refuse (i.approval_state == approved) already_approved
    ok (record i {
      invocation_id = invocation_id;
      tool_name = tool_name;
      requested_by_task_id = requested_by_task_id;
      requested_by_agent = requested_by_agent;
    })

  unfoldable pub check_result_consistency : ToolResult V → Result ToolError (Unit {0})
  check_result_consistency r = elim r.status [
    | tool_success ↦ refuse (is_falsy r.output && is_nil r.artifacts) success_without_output
    | tool_error ↦ refuse (is_falsy r.error) error_without_message
    | tool_blocked ↦ refuse (is_falsy r.error) blocked_without_message
  ]

  unfoldable pub check_result : ToolResult V → Result ToolError (ToolResult V)
  check_result r = do
    invocation_id ← required result_invocation_id_empty r.invocation_id
    tool_name ← required result_tool_name_empty r.tool_name
    check_result_consistency r
    ok (record r { invocation_id = invocation_id; tool_name = tool_name })
