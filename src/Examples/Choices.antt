-- ===== src/Examples/Choices.antt =====
-- A selection of context.
use nova_harness.Prelude.{
  List, Text, [], any?, codes, drop, keep, length, map, mem?, nat_eq, none, not, refl, run_texts,
  some, take, text_eq, ◌&&◌, ◌++◌, ◌+◌, ◌==◌, ◌||◌, ◌∷◌, ◌≡◌, ◌≤◌,
}
use nova_harness.Selection.Candidates.{before_colons, gather_file_candidates, gather_paths}
use nova_harness.Selection.Chosen.{ids_of}
use nova_harness.Selection.Exclusions.{is_excluded, with_slashes}
use nova_harness.Selection.Gathered.{gather_file_candidates-mem?}
use nova_harness.Selection.Policy.{
  Caps, Item, Request, SelectionResult, insert_item, scored_failures, scored_files, select,
  sort_items,
}
use nova_harness.Selection.Ranked.{IsRanked, sort_items_stable}
use nova_harness.Selection.Selected.{failure_room, file_room, select_capped, select_greedy}

abbrev request : Request
request = record {
  relevant_files = codes "src/a.py" ∷ codes "b.py" ∷ codes "src/a.py" ∷ [];
  failing_tests = codes "tests/test_a.py::test_one" ∷ [];
  error_logs = codes "Traceback (most recent call last)" ∷ codes "all fine" ∷ [];
  task_title = codes "fix a";
  task_keywords = codes "a.py" ∷ [];
  repo_top_paths = codes "README.md" ∷ codes ".git" ∷ [];
  imported_by = none;
  selected_dir = none;
}

abbrev same_text : Text → Text
same_text t = t

files_gathered :
    map (λ c. c.path) (gather_file_candidates request.relevant_files request.repo_top_paths)
    ≡ codes "src/a.py" ∷ codes "b.py" ∷ codes "README.md" ∷ []
unfolding gather_file_candidates gather_paths is_excluded with_slashes any? mem? run_texts
files_gathered = refl

file_before_colons :
    before_colons (codes "tests/test_a.py::test_one") ≡ some (codes "tests/test_a.py")
unfolding before_colons run_texts
file_before_colons = refl

gather_file_candidates-mem?_example :
    mem?
      (codes "b.py")
      (map (λ c. c.path) (gather_file_candidates request.relevant_files request.repo_top_paths))
    ≡ (mem? (codes "b.py") request.relevant_files || mem? (codes "b.py") request.repo_top_paths)
      && not (is_excluded (codes "b.py"))
gather_file_candidates-mem?_example =
    gather_file_candidates-mem? request.relevant_files request.repo_top_paths (codes "b.py")

abbrev items : List Item
items =
    record { score = 5; item_id = codes "file:a"; reason = codes "x" }
    ∷ record { score = 9; item_id = codes "file:b"; reason = codes "y" }
    ∷ record { score = 5; item_id = codes "file:c"; reason = codes "z" }
    ∷ []

items_sorted : ids_of (sort_items items) ≡ codes "file:b" ∷ codes "file:a" ∷ codes "file:c" ∷ []
unfolding sort_items insert_item
items_sorted = refl

sort_items_stable_example :
    IsRanked (sort_items items)
    × (keep (λ y. y.score == 5) (sort_items items) ≡ keep (λ y. y.score == 5) items)
sort_items_stable_example = sort_items_stable items 5

abbrev caps : Caps
caps = record { max_files = 2; max_failures = 3; max_docs = 2; max_total = 3 }

abbrev selection : SelectionResult
selection = select same_text request caps

select_greedy_example :
    (selection.selected_file_ids
      ≡ ids_of (take (file_room same_text request caps) (scored_files same_text request)))
    × (selection.selected_failure_ids
        ≡ ids_of (take (failure_room same_text request caps) (scored_failures same_text request)))
    × (selection.selected_doc_ids ≡ [])
    × (selection.dropped_item_ids
        ≡ ids_of (drop (file_room same_text request caps) (scored_files same_text request))
          ++ ids_of
              (drop (failure_room same_text request caps) (scored_failures same_text request)))
select_greedy_example = select_greedy same_text request caps

select_capped_example :
    (length selection.selected_file_ids ≤ 2)
    × (length selection.selected_failure_ids ≤ 3)
    × (length selection.selected_doc_ids ≤ 2)
    × (length selection.selected_file_ids
          + length selection.selected_failure_ids
          + length selection.selected_doc_ids
        ≤ 3)
select_capped_example = select_capped same_text request caps
