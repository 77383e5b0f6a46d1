-- ===== src/Selection/Selected.antt =====
-- The result of `ContextSelectionPolicy.select` of context_selection/policy.py.
use nova_harness.Prelude.{
  Text, [], ap, append-nil, arith, codes, drop, length, length-map, length-take, map, map-append,
  min, refl, subst, take, ℕ, ◌++◌, ◌+◌, ◌-◌, ◌∙◌, ◌≡◌, ◌≤◌,
}
use nova_harness.Selection.Chosen.{Greedy, choose-Greedy, ids_of, room}
use nova_harness.Selection.Gathered.{gather_doc_candidates_nil}
use nova_harness.Selection.Policy.{
  Caps, Choice, Request, SelectionResult, choose, doc_item_of, scored_docs, scored_failures,
  scored_files, select, sort_items,
}

module _ (lower : Text → Text) (r : Request) (caps : Caps) where
  abbrev result : SelectionResult
  result = select lower r caps

  -- How many files and failures there is room for.
  abbrev pub file_room : ℕ
  file_room = min caps.max_files caps.max_total

  abbrev pub failure_room : ℕ
  failure_room = min caps.max_failures (caps.max_total - length result.selected_file_ids)

  room_start :
      (most max_total total : ℕ) → room most max_total 0 total ≡ min most (max_total - total)
  room_start most max_total total = omega arith

  files_chosen : Choice
  files_chosen = choose (codes "file") caps.max_files caps.max_total 0 0 (scored_files lower r)

  failures_chosen : Choice
  failures_chosen =
      choose (codes "failure") caps.max_failures caps.max_total 0 files_chosen.total_selected
        (scored_failures lower r)

  scored_docs_nil : scored_docs lower r ≡ []
  unfolding scored_docs
  scored_docs_nil =
      ap (λ docs. sort_items (map (doc_item_of lower r) docs))
        (gather_doc_candidates_nil lower r.task_keywords)
      ∙ unfold sort_items in refl

  files-Greedy : Greedy (scored_files lower r) file_room 0 files_chosen
  unfolding files_chosen
  files-Greedy =
      subst (λ k. Greedy (scored_files lower r) k 0 files_chosen)
        (room_start caps.max_files caps.max_total 0 ∙ omega arith)
        (choose-Greedy (codes "file") caps.max_files caps.max_total 0 0 (scored_files lower r))

  failures-Greedy :
      Greedy
        (scored_failures lower r)
        (min caps.max_failures (caps.max_total - length files_chosen.selected))
        files_chosen.total_selected
        failures_chosen
  unfolding failures_chosen
  failures-Greedy =
      subst (λ k. Greedy (scored_failures lower r) k files_chosen.total_selected failures_chosen)
        (room_start caps.max_failures caps.max_total files_chosen.total_selected
          ∙ ap (λ n. min caps.max_failures (caps.max_total - n))
              (files-Greedy.totals ∙ omega arith))
        (choose-Greedy (codes "failure") caps.max_failures caps.max_total 0
          files_chosen.total_selected (scored_failures lower r))

  select_choices : result ≡ record {
    selected_file_ids = files_chosen.selected;
    selected_failure_ids = failures_chosen.selected;
    selected_doc_ids = [];
    dropped_item_ids = files_chosen.dropped ++ (failures_chosen.dropped ++ []);
    decisions = files_chosen.decisions ++ (failures_chosen.decisions ++ []);
  }
  unfolding select files_chosen failures_chosen
  select_choices = rw scored_docs_nil (unfold choose in refl)

  -- The selection is greedy in the order of the scores: the best files as far as the caps allow, then
  -- the best failures as far as what is left of the total allows, no docs, and the rest is dropped.
  pub select_greedy :
      (result.selected_file_ids ≡ ids_of (take file_room (scored_files lower r)))
      × (result.selected_failure_ids ≡ ids_of (take failure_room (scored_failures lower r)))
      × (result.selected_doc_ids ≡ [])
      × (result.dropped_item_ids
          ≡ ids_of (drop file_room (scored_files lower r))
            ++ ids_of (drop failure_room (scored_failures lower r)))
  select_greedy = rw select_choices (
    files-Greedy.selects,
    failures-Greedy.selects,
    refl,
    rw (append-nil failures_chosen.dropped) (rw (files-Greedy.drops, failures-Greedy.drops)),
  )

  -- No cap is exceeded.
  pub select_capped :
      (length result.selected_file_ids ≤ caps.max_files)
      × (length result.selected_failure_ids ≤ caps.max_failures)
      × (length result.selected_doc_ids ≤ caps.max_docs)
      × (length result.selected_file_ids
            + length result.selected_failure_ids
            + length result.selected_doc_ids
          ≤ caps.max_total)
  select_capped =
      let (files, failures, docs, _) = select_greedy in
      let n : length result.selected_file_ids ≤ file_room = rw files (
        rw (length-map (λ x. x.item_id) (take file_room (scored_files lower r)))
          (length-take file_room (scored_files lower r))) in
      let m : length result.selected_failure_ids ≤ failure_room = rw failures (
        rw (length-map (λ x. x.item_id) (take failure_room (scored_failures lower r)))
          (length-take failure_room (scored_failures lower r))) in
      let none_left : length result.selected_doc_ids ≡ 0 = ap length docs in
      (omega (arith, n), omega (arith, m), omega (arith, none_left), omega (arith, n, m, none_left))

  -- Each scored candidate has one decision, in the order in which they are tried.
  pub select_decides :
      map (λ d. d.item_id) result.decisions
      ≡ ids_of (scored_files lower r) ++ ids_of (scored_failures lower r)
  select_decides =
      ap (λ s. map (λ d. d.item_id) s.decisions) select_choices
      ∙ rw (append-nil failures_chosen.decisions) (
          map-append (λ d. d.item_id) files_chosen.decisions failures_chosen.decisions
          ∙ rw (files-Greedy.decides, failures-Greedy.decides))
