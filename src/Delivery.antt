-- ===== src/Delivery.antt =====
-- models/context_delivery.py: the bundle of context that a task is given.
use nova_harness.Prelude.{
  List, Option, Result, Text, ltb_ℤ, ok, pos, refuse, required, ℤ, ◌>>=◌, ◌>>◌, ◌||◌,
}

pub data ContentType : Type 0 where
  file_snippet error_log test_failure doc_snippet repo_map command_hint : ContentType

pub record DeliveryItem : Type 0 where
  pub item_id : Text
  pub content_type : ContentType
  pub source_path : Option Text
  pub title : Text
  pub reason : Text
  pub content : Text
  pub priority : ℤ

pub record RepoSnapshot : Type 0 where
  pub repo_root : Text
  pub top_level_paths : List Text
  pub primary_language : Option Text
  pub build_system : Option Text
  pub test_command : Option Text
  pub lint_command : Option Text

pub record VerificationHints : Type 0 where
  pub recommended_commands : List Text
  pub success_signals : List Text

pub record ContextDeliveryBundle : Type 0 where
  pub task_id : Text
  pub task_brief : Text
  pub repo_snapshot : RepoSnapshot
  pub selected_files : List DeliveryItem
  pub selected_failures : List DeliveryItem
  pub selected_docs : List DeliveryItem
  pub verification_hints : VerificationHints

pub data DeliveryError : Type 0 where
  item_title_empty item_reason_empty item_content_empty priority_out_of_range : DeliveryError
  repo_root_empty bundle_task_id_empty bundle_task_brief_empty : DeliveryError

unfoldable pub check_item : DeliveryItem → Result DeliveryError DeliveryItem
check_item i = do
  title ← required item_title_empty i.title
  reason ← required item_reason_empty i.reason
  content ← required item_content_empty i.content
  refuse (ltb_ℤ i.priority (pos 1) || ltb_ℤ (pos 5) i.priority) priority_out_of_range
  ok (record i { title = title; reason = reason; content = content })

unfoldable pub check_snapshot : RepoSnapshot → Result DeliveryError RepoSnapshot
check_snapshot r = do
  repo_root ← required repo_root_empty r.repo_root
  ok (record r { repo_root = repo_root })

unfoldable pub check_bundle : ContextDeliveryBundle → Result DeliveryError ContextDeliveryBundle
check_bundle b = do
  task_id ← required bundle_task_id_empty b.task_id
  task_brief ← required bundle_task_brief_empty b.task_brief
  ok (record b { task_id = task_id; task_brief = task_brief })
