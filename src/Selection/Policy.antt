-- ===== src/Selection/Policy.antt =====
-- context_selection/policy.py: the selection under caps.
use nova_harness.Prelude.{
  List, Option, Text, [], codes, if◌then◌else◌, is_blank, is_nil, keep, ltb, map, none, not, some,
  suc, ℕ, ◌&&◌, ◌++◌, ◌+◌, ◌∷◌,
}
use nova_harness.Selection.Candidates.{
  CandidateDoc, CandidateFailure, CandidateFile, gather_doc_candidates, gather_failure_candidates,
  gather_file_candidates,
}
use nova_harness.Selection.Scoring.{
  score_doc, score_failure, score_file, score_file_import_proximity, score_file_same_directory,
}

pub record SelectionDecision : Type 0 where
  pub item_id : Text
  pub item_type : Text
  pub score : ℕ
  pub reasons : List Text

pub record SelectionResult : Type 0 where
  pub selected_file_ids : List Text
  pub selected_failure_ids : List Text
  pub selected_doc_ids : List Text
  pub dropped_item_ids : List Text
  pub decisions : List SelectionDecision

-- `ContextSelectionPolicy`: its caps.
pub record Caps : Type 0 where
  pub max_files : ℕ
  pub max_failures : ℕ
  pub max_docs : ℕ
  pub max_total : ℕ

abbrev pub default_caps : Caps
default_caps = record { max_files = 5; max_failures = 3; max_docs = 2; max_total = 10 }

-- The keyword arguments of `select`.
pub record Request : Type 0 where
  pub relevant_files : List Text
  pub failing_tests : List Text
  pub error_logs : List Text
  pub task_title : Text
  pub task_keywords : List Text
  pub repo_top_paths : List Text
  pub imported_by : Option (List Text)
  pub selected_dir : Option Text

-- A scored candidate, with what its decision says of it.
pub record Item : Type 0 where
  pub score : ℕ
  pub item_id : Text
  pub reason : Text

-- `sort(key=lambda x: -x[0])` is stable: an item stays before those of its score.
unfoldable pub insert_item : Item → List Item → List Item
insert_item x [] = x ∷ []
insert_item x (y ∷ items) =
    let rest = insert_item x items in if ltb x.score y.score then y ∷ rest else x ∷ y ∷ items

unfoldable pub sort_items : List Item → List Item
sort_items [] = []
sort_items (x ∷ items) = insert_item x (sort_items items)

-- What a loop over scored candidates leaves.
pub record Choice : Type 0 where
  pub selected : List Text
  pub dropped : List Text
  pub decisions : List SelectionDecision
  pub total_selected : ℕ

unfoldable pub decision_of : Text → Item → List Text → SelectionDecision
decision_of item_type x reasons = record {
  item_id = x.item_id;
  item_type = item_type;
  score = x.score;
  reasons = reasons;
}

-- The loop for one type of items: `n` of them and `total` items have been selected so far.
unfoldable pub choose : Text → ℕ → ℕ → ℕ → ℕ → List Item → Choice
choose item_type cap max_total n total [] = record {
  selected = [];
  dropped = [];
  decisions = [];
  total_selected = total;
}
choose item_type cap max_total n total (x ∷ items) =
    let taken = choose item_type cap max_total (suc n) (suc total) items in
    let passed = choose item_type cap max_total n total items in
    if ltb n cap && ltb total max_total
    then record taken {
      selected = x.item_id ∷ taken.selected;
      decisions = decision_of item_type x (x.reason ∷ []) ∷ taken.decisions;
    }
    else record passed {
      dropped = x.item_id ∷ passed.dropped;
      decisions =
          decision_of item_type x (x.reason ∷ codes "dropped by cap" ∷ []) ∷ passed.decisions;
    }

module _ (lower : Text → Text) (r : Request) where
  unfoldable pub keyword_set : List Text
  keyword_set = map lower (keep (λ k. not (is_blank k)) r.task_keywords)

  -- The extra points, for which `imported_by` and `selected_dir` must not be empty.
  unfoldable pub extra_score : CandidateFile → ℕ
  extra_score c =
      (elim r.imported_by [
        | none ↦ 0
        | some imported ↦ if is_nil imported then 0 else score_file_import_proximity c imported
      ])
      + (elim r.selected_dir [
        | none ↦ 0
        | some dir ↦ if is_nil dir then 0 else score_file_same_directory c dir
      ])

  unfoldable pub file_item_of : CandidateFile → Item
  file_item_of c = record {
    score = score_file lower c r.relevant_files r.task_title keyword_set + extra_score c;
    item_id = codes "file:" ++ c.path;
    reason = c.reason;
  }

  unfoldable pub failure_item_of : CandidateFailure → Item
  failure_item_of c = record {
    score = score_failure lower c r.relevant_files keyword_set;
    item_id = codes "failure:" ++ c.test_name;
    reason = c.reason;
  }

  unfoldable pub doc_item_of : CandidateDoc → Item
  doc_item_of c = record {
    score = score_doc lower c keyword_set;
    item_id = codes "doc:" ++ c.title;
    reason = c.reason;
  }

  unfoldable pub scored_files : List Item
  scored_files =
      sort_items (map file_item_of (gather_file_candidates r.relevant_files r.repo_top_paths))

  unfoldable pub scored_failures : List Item
  scored_failures =
      sort_items (map failure_item_of (gather_failure_candidates r.failing_tests r.error_logs))

  unfoldable pub scored_docs : List Item
  scored_docs = sort_items (map doc_item_of (gather_doc_candidates lower r.task_keywords))

  unfoldable pub select : Caps → SelectionResult
  select caps =
      let files = choose (codes "file") caps.max_files caps.max_total 0 0 scored_files in
      let failures =
        choose (codes "failure") caps.max_failures caps.max_total 0 files.total_selected
          scored_failures in
      let docs =
        choose (codes "doc") caps.max_docs caps.max_total 0 failures.total_selected scored_docs in
      record {
        selected_file_ids = files.selected;
        selected_failure_ids = failures.selected;
        selected_doc_ids = docs.selected;
        dropped_item_ids = files.dropped ++ (failures.dropped ++ docs.dropped);
        decisions = files.decisions ++ (failures.decisions ++ docs.decisions);
      }
