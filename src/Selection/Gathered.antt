-- ===== src/Selection/Gathered.antt =====
-- Which files `gather_file_candidates` of context_selection/candidates.py gathers.
use nova_harness.Prelude.{
  ==_refl, Bool-cases, Distinct, List, Text, [], ap, arith, codes, false, inl, inr, map, map-append,
  mem?, mem?-append, nat_eq, not, refl, strip, text_eq, true, ◌&&◌, ◌++◌, ◌||◌, ◌∙◌, ◌∷◌, ◌≡◌,
}
use nova_harness.Selection.Candidates.{
  CandidateFile, gather_doc_candidates, gather_docs, gather_file_candidates, gather_paths,
}
use nova_harness.Selection.Exclusions.{is_excluded}
use nova_harness.Trace.{policy_outcome_type_eq, trace_event_status_eq}

abbrev paths_of : List CandidateFile → List Text
paths_of candidates = map (λ c. c.path) candidates

gather_paths-mem? :
    (reason : Text) (seen paths : List Text) (p : Text)
    → mem? p (paths_of (gather_paths reason seen paths).0)
      ≡ mem? p paths && (not (is_excluded p) && not (mem? p seen))
unfolding gather_paths mem?
gather_paths-mem? reason seen [] p = refl
gather_paths-mem? reason seen (path ∷ paths) p =
    let skipped = gather_paths-mem? reason seen paths p in
    let taken = gather_paths-mem? reason (path ∷ seen) paths p in ground (arith, skipped, taken)

gather_paths_seen :
    (reason : Text) (seen paths : List Text) (p : Text)
    → mem? p (gather_paths reason seen paths).1
      ≡ mem? p seen || (mem? p paths && not (is_excluded p))
unfolding gather_paths mem?
gather_paths_seen reason seen [] p = ground arith
gather_paths_seen reason seen (path ∷ paths) p =
    let skipped = gather_paths_seen reason seen paths p in
    let taken = gather_paths_seen reason (path ∷ seen) paths p in ground (arith, skipped, taken)

gather_paths-Distinct :
    (reason : Text) (seen paths : List Text)
    → Distinct (paths_of (gather_paths reason seen paths).0)
unfolding gather_paths
gather_paths-Distinct reason seen [] = tt
gather_paths-Distinct reason seen (path ∷ paths) = elim (Bool-cases (mem? path seen)) [
  | inl old ↦ rw old (gather_paths-Distinct reason seen paths)
  | inr new ↦ elim (Bool-cases (is_excluded path)) [
    | inl out ↦ rw (new, out) (gather_paths-Distinct reason seen paths)
    | inr kept ↦
        rw (new, kept)
          (
            gather_paths-mem? reason (path ∷ seen) paths path
                ∙ unfold mem? in ground (arith, ==_refl path),
            gather_paths-Distinct reason (path ∷ seen) paths,
          )
  ]
]

Distinct-append :
    (xs ys : List Text)
    → Distinct xs
    → Distinct ys
    → ((p : Text) → mem? p xs ≡ true → mem? p ys ≡ false)
    → Distinct (xs ++ ys)
unfolding mem?
Distinct-append [] ys d e apart = e
Distinct-append (x ∷ xs) ys d e apart = (
  ground (arith, mem?-append x xs ys, apart x, ==_refl x, d.0),
  Distinct-append xs ys d.1 e (λ p h. ground (arith, apart p)),
)

abbrev relevant_reason : Text
relevant_reason = codes "explicitly referenced in task inputs"

abbrev top_reason : Text
top_reason = codes "top-level repo entry"

-- The gathered files are those of the relevant files and of the top-level paths that are not
-- excluded.
pub gather_file_candidates-mem? :
    (relevant_files repo_top_paths : List Text) (p : Text)
    → mem? p (paths_of (gather_file_candidates relevant_files repo_top_paths))
      ≡ (mem? p relevant_files || mem? p repo_top_paths) && not (is_excluded p)
unfolding gather_file_candidates
gather_file_candidates-mem? relevant_files repo_top_paths p =
    let first = gather_paths relevant_reason [] relevant_files in
    let second = gather_paths top_reason first.1 repo_top_paths in
    let left = gather_paths-mem? relevant_reason [] relevant_files p in
    let seen = gather_paths_seen relevant_reason [] relevant_files p in
    let right = gather_paths-mem? top_reason first.1 repo_top_paths p in
    ap (mem? p) (map-append (λ c. c.path) first.0 second.0)
    ∙ mem?-append p (paths_of first.0) (paths_of second.0)
    ∙ unfold mem? in ground (arith, left, right, seen)

-- No file is gathered twice.
pub gather_file_candidates-Distinct :
    (relevant_files repo_top_paths : List Text)
    → Distinct (paths_of (gather_file_candidates relevant_files repo_top_paths))
unfolding gather_file_candidates
gather_file_candidates-Distinct relevant_files repo_top_paths =
    let first = gather_paths relevant_reason [] relevant_files in
    let second = gather_paths top_reason first.1 repo_top_paths in
    rw (map-append (λ c. c.path) first.0 second.0) (
      Distinct-append (paths_of first.0) (paths_of second.0)
        (gather_paths-Distinct relevant_reason [] relevant_files)
        (gather_paths-Distinct top_reason first.1 repo_top_paths)
        (λ p h.
          let left = gather_paths-mem? relevant_reason [] relevant_files p in
          let seen = gather_paths_seen relevant_reason [] relevant_files p in
          let right = gather_paths-mem? top_reason first.1 repo_top_paths p in
          unfold mem? in ground (arith, left, right, seen)))

no_docs : (lower : Text → Text) (seen keywords : List Text) → gather_docs lower seen keywords ≡ []
unfolding gather_docs
no_docs lower seen [] = refl
no_docs lower seen (kw ∷ keywords) =
    let skipped = no_docs lower seen keywords in
    let rest = no_docs lower (strip (lower kw) ∷ seen) keywords in ground (arith, skipped, rest)

pub gather_doc_candidates_nil :
    (lower : Text → Text) (keywords : List Text) → gather_doc_candidates lower keywords ≡ []
unfolding gather_doc_candidates
gather_doc_candidates_nil lower keywords = no_docs lower [] keywords
