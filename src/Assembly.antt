-- ===== src/Assembly.antt =====
-- models/prompt_assembly.py: the layers, blocks and messages of a prompt.
use nova_harness.Prelude.{
  Bool, List, Option, Result, Text, [], err, first_repeat, is_nil, map, nat_eq, none, ok, refuse,
  required, some, text_eq, ℤ, ◌&&◌, ◌>>=◌, ◌>>◌,
}

pub data InstructionLayerType : Type 0 where
  system_layer global_layer repository_layer task_layer : InstructionLayerType

pub data ContextBlockType : Type 0 where
  file_block failure_block doc_block summary_block : ContextBlockType

pub data MessageRole : Type 0 where
  system_role user_role assistant_role : MessageRole

pub record InstructionLayer : Type 0 where
  pub layer_id : Text
  pub layer_type : InstructionLayerType
  pub title : Text
  pub content : Text
  pub priority : ℤ

pub record ContextBlock : Type 0 where
  pub block_id : Text
  pub block_type : ContextBlockType
  pub title : Text
  pub content : Text
  pub source_ref : Option Text
  pub priority : ℤ

pub record ToolExposure : Type 0 where
  pub tool_name : Text
  pub description : Text
  pub input_schema_summary : Text
  pub requires_approval : Bool

pub record ConstraintBlock : Type 0 where
  pub title : Text
  pub rules : List Text

pub record VerificationBlock : Type 0 where
  pub summary : Option Text
  pub required_checks : List Text
  pub done_definition : List Text

pub record MessageBlock : Type 0 where
  pub role : MessageRole
  pub content : Text

pub record PromptAssembly : Type 0 where
  pub assembly_id : Text
  pub run_id : Text
  pub instruction_layers : List InstructionLayer
  pub context_blocks : List ContextBlock
  pub tool_exposures : List ToolExposure
  pub constraints : List ConstraintBlock
  pub verification : Option VerificationBlock
  pub messages : List MessageBlock

pub data AssemblyError : Type 0 where
  layer_id_empty layer_title_empty layer_content_empty : AssemblyError
  block_id_empty block_title_empty block_content_empty : AssemblyError
  exposed_tool_name_empty constraint_title_empty constraint_rules_empty : AssemblyError
  verification_block_empty message_content_empty : AssemblyError
  assembly_id_empty assembly_run_id_empty no_instruction_layer no_message_block : AssemblyError
  duplicate_tool_name : Text → AssemblyError

unfoldable pub check_layer : InstructionLayer → Result AssemblyError InstructionLayer
check_layer l = do
  layer_id ← required layer_id_empty l.layer_id
  title ← required layer_title_empty l.title
  content ← required layer_content_empty l.content
  ok (record l { layer_id = layer_id; title = title; content = content })

unfoldable pub check_block : ContextBlock → Result AssemblyError ContextBlock
check_block b = do
  block_id ← required block_id_empty b.block_id
  title ← required block_title_empty b.title
  content ← required block_content_empty b.content
  ok (record b { block_id = block_id; title = title; content = content })

unfoldable pub check_exposure : ToolExposure → Result AssemblyError ToolExposure
check_exposure t = do
  tool_name ← required exposed_tool_name_empty t.tool_name
  ok (record t { tool_name = tool_name })

unfoldable pub check_constraint : ConstraintBlock → Result AssemblyError ConstraintBlock
check_constraint c = do
  title ← required constraint_title_empty c.title
  refuse (is_nil c.rules) constraint_rules_empty
  ok (record c { title = title })

unfoldable pub check_verification_block : VerificationBlock → Result AssemblyError VerificationBlock
check_verification_block v = do
  refuse (is_nil v.required_checks && is_nil v.done_definition) verification_block_empty
  ok v

unfoldable pub check_message : MessageBlock → Result AssemblyError MessageBlock
check_message m = do
  content ← required message_content_empty m.content
  ok (record m { content = content })

unfoldable pub unique_tool_names : List ToolExposure → Result AssemblyError (Unit {0})
unique_tool_names exposures = elim (first_repeat [] (map (λ t. t.tool_name) exposures)) [
  | none ↦ ok tt
  | some name ↦ err (duplicate_tool_name name)
]

unfoldable pub check_assembly : PromptAssembly → Result AssemblyError PromptAssembly
unfolding unique_tool_names
check_assembly a = do
  assembly_id ← required assembly_id_empty a.assembly_id
  run_id ← required assembly_run_id_empty a.run_id
  refuse (is_nil a.instruction_layers) no_instruction_layer
  refuse (is_nil a.messages) no_message_block
  unique_tool_names a.tool_exposures
  ok (record a { assembly_id = assembly_id; run_id = run_id })
