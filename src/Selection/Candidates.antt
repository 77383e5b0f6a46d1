-- ===== src/Selection/Candidates.antt =====
-- context_selection/candidates.py: what a task refers to.
use nova_harness.Prelude.{
  Bool, List, Option, Text, [], codes, has_part, if◌then◌else◌, is_nil, map, mem?, nat_eq, none,
  some, starts_with, strip, text_eq, ◌++◌, ◌||◌, ◌∷◌,
}
use nova_harness.Selection.Exclusions.{is_excluded}
use nova_harness.Trace.{policy_outcome_type_eq, trace_event_status_eq}

pub record CandidateFile : Type 0 where
  pub path : Text
  pub reason : Text

pub record CandidateFailure : Type 0 where
  pub test_name : Text
  pub file_path : Option Text
  pub reason : Text

pub record CandidateDoc : Type 0 where
  pub title : Text
  pub source : Text
  pub reason : Text

-- One loop of `gather_file_candidates`, and the paths seen after it.
unfoldable pub gather_paths : Text → List Text → List Text → List CandidateFile × List Text
gather_paths reason seen [] = ([], seen)
gather_paths reason seen (path ∷ paths) =
    let skipped = gather_paths reason seen paths in
    let taken = gather_paths reason (path ∷ seen) paths in
    if mem? path seen
    then skipped
    else if is_excluded path
    then skipped
    else (record { path = path; reason = reason } ∷ taken.0, taken.1)

unfoldable pub gather_file_candidates : List Text → List Text → List CandidateFile
gather_file_candidates relevant_files repo_top_paths =
    let (relevant, seen) =
      gather_paths (codes "explicitly referenced in task inputs") [] relevant_files in
    relevant ++ (gather_paths (codes "top-level repo entry") seen repo_top_paths).0

-- `parts = ref.split("::")` and then `parts[0] if len(parts) > 1 else None`
unfoldable pub before_colons : Text → Option Text
before_colons [] = none
before_colons (c ∷ t) =
    let rest = before_colons t in
    if starts_with (codes "::") (c ∷ t)
    then some []
    else elim rest [ none ↦ none | some start ↦ some (c ∷ start) ]

unfoldable pub failing_candidate : Text → CandidateFailure
failing_candidate test_ref = record {
  test_name = test_ref;
  file_path = before_colons test_ref;
  reason = codes "failing test explicitly listed in task inputs";
}

unfoldable pub log_candidate : CandidateFailure
log_candidate = record {
  test_name = codes "runtime error";
  file_path = none;
  reason = codes "error log with traceback or exception";
}

unfoldable pub is_error_log : Text → Bool
is_error_log log =
    has_part (codes "Traceback") log
    || has_part (codes "Error") log
    || has_part (codes "Exception") log

-- The loop over the error logs.
unfoldable pub gather_logs : List Text → List Text → List CandidateFailure
gather_logs seen_errors [] = []
gather_logs seen_errors (log ∷ logs) =
    let skipped = gather_logs seen_errors logs in
    let rest = gather_logs (log ∷ seen_errors) logs in
    if mem? log seen_errors
    then skipped
    else if is_error_log log
    then log_candidate ∷ rest
    else rest

unfoldable pub gather_failure_candidates : List Text → List Text → List CandidateFailure
gather_failure_candidates failing_tests error_logs =
    map failing_candidate failing_tests ++ gather_logs [] error_logs

-- The loop of `gather_doc_candidates`: it marks the keywords as seen, and adds no candidate.
unfoldable pub gather_docs : (Text → Text) → List Text → List Text → List CandidateDoc
gather_docs lower seen [] = []
gather_docs lower seen (kw ∷ keywords) =
    let kw_lower = strip (lower kw) in
    let skipped = gather_docs lower seen keywords in
    let rest = gather_docs lower (kw_lower ∷ seen) keywords in
    if is_nil kw_lower || mem? kw_lower seen then skipped else rest

unfoldable pub gather_doc_candidates : (Text → Text) → List Text → List CandidateDoc
gather_doc_candidates lower task_keywords = gather_docs lower [] task_keywords
