-- ===== src/Selection/Scoring.antt =====
-- context_selection/scoring.py. `lower` is `str.lower`; a set is a list, of which only membership and
-- whether some element passes a test are asked.
use nova_harness.Prelude.{
  Bool, List, Text, [], any?, codes, has_part, if◌then◌else◌, is_nil, join, mem?, nat_eq, none,
  some, split_on, text_eq, ℕ, ◌+◌, ◌==◌, ◌∷◌,
}
use nova_harness.Selection.Candidates.{CandidateDoc, CandidateFailure, CandidateFile}
use nova_harness.Selection.Exclusions.{with_slashes}

-- What `score += points` under a test adds.
unfoldable pub points_if : Bool → ℕ → ℕ
points_if holds points = if holds then points else 0

unfoldable pub some_keyword_in : List Text → Text → Bool
some_keyword_in keywords text = any? (λ kw. has_part kw text) keywords

module _ (lower : Text → Text) where
  unfoldable pub score_file : CandidateFile → List Text → Text → List Text → ℕ
  score_file candidate relevant_files task_title keywords =
      let path_lower = lower candidate.path in
      points_if (mem? candidate.path relevant_files) 100
      + points_if (has_part (codes "test") path_lower) 40
      + points_if
          (any? (λ part. has_part part path_lower) (codes "src" ∷ codes "lib" ∷ codes "app" ∷ []))
          15
      + points_if (some_keyword_in keywords path_lower) 10
      + points_if (some_keyword_in keywords (lower task_title)) 5

  unfoldable pub score_failure : CandidateFailure → List Text → List Text → ℕ
  score_failure candidate relevant_files keywords = elim candidate.file_path [
    | none ↦ 0
    | some file_path ↦
        if is_nil file_path
        then 0
        else points_if (mem? file_path relevant_files) 90
          + points_if (some_keyword_in keywords (lower file_path)) 20
  ]

  unfoldable pub score_doc : CandidateDoc → List Text → ℕ
  score_doc candidate keywords =
      points_if (some_keyword_in keywords (lower candidate.title)) 30
      + points_if (some_keyword_in keywords (lower candidate.source)) 15

unfoldable pub score_file_import_proximity : CandidateFile → List Text → ℕ
score_file_import_proximity candidate directly_imported_by =
    if mem? candidate.path directly_imported_by then 40 else 0

-- `pieces[:-1]`
unfoldable pub all_but_last : List Text → List Text
all_but_last [] = []
all_but_last (piece ∷ []) = []
all_but_last (piece ∷ second ∷ pieces) = piece ∷ all_but_last (second ∷ pieces)

unfoldable pub score_file_same_directory : CandidateFile → Text → ℕ
score_file_same_directory candidate selected_dir =
    let candidate_dir =
      join (codes "/") (all_but_last (split_on 47 (with_slashes candidate.path))) in
    if candidate_dir == selected_dir then 20 else 0
