-- ===== src/Task/Scope.antt =====
-- What a validated scope of models/task_contract.py guarantees of its paths.
use nova_harness.Prelude.{
  >>=-eq-ok, All, Apart, Apart-cons, Apart-cons_of, Apart-nil, Bool-cases, Distinct, List, Text, [],
  any?, any?-false, any?-false_of, arith, codes, false, has_part, inl, inr, is_nil, mem?, nat_eq,
  ok, refl, required, required-normal, required_normal, starts_with, strip, strip-strip, text_eq,
  true, ◌∷◌, ◌≡◌,
}
use nova_harness.Task.{
  TaskScope, approval_trigger_eq, check_scope, clean_paths, is_invalid_path, repo_path_empty,
  tool_name_eq, validate_no_path_overlap, validate_subpaths, verification_kind_eq,
}

-- A path entry as the validator leaves it.
pub record IsCleanPath (p : Text) : Type 0 where
  pub stripped : strip p ≡ p
  pub not_empty : is_nil p ≡ false
  pub relative : starts_with (codes "/") p ≡ false
  pub downward : has_part (codes "..") p ≡ false

item_clean :
    (raw : Text)
    → is_nil (strip raw) ≡ false
    → is_invalid_path (strip raw) ≡ false
    → IsCleanPath (strip raw)
unfolding is_invalid_path
item_clean raw solid valid = record {
  stripped = strip-strip raw;
  not_empty = solid;
  relative = ground arith;
  downward = ground arith;
}

-- The outcomes of the loop for one entry.
data Outcome (seen : List Text) (raw : Text) (value out : List Text) : Type 0 where
  skipped :
      IsCleanPath (strip raw)
      → mem? (strip raw) seen ≡ true
      → clean_paths seen value ≡ ok out
      → Outcome seen raw value out
  taken :
      (rest : List Text)
      → IsCleanPath (strip raw)
      → mem? (strip raw) seen ≡ false
      → clean_paths (strip raw ∷ seen) value ≡ ok rest
      → out ≡ strip raw ∷ rest
      → Outcome seen raw value out

clean_paths-Outcome :
    (seen : List Text) (raw : Text) (value : List Text) {out : List Text}
    → clean_paths seen (raw ∷ value) ≡ ok out
    → Outcome seen raw value out
unfolding clean_paths
clean_paths-Outcome seen raw value {out} h = elim (Bool-cases (mem? (strip raw) seen)) [
  | inl old ↦ skipped (item_clean raw (ground arith) (ground arith)) old (ground arith)
  | inr new ↦
      let solid : is_nil (strip raw) ≡ false = ground arith in
      let valid : is_invalid_path (strip raw) ≡ false = ground arith in
      let (rest, e, last) =
        >>=-eq-ok (clean_paths (strip raw ∷ seen) value) (λ cleaned. ok (strip raw ∷ cleaned))
          (rw (solid, valid, new) at h) in
      taken rest (item_clean raw solid valid) new e (cc last)
]

clean_paths-nil :
    (seen out : List Text)
    → clean_paths seen [] ≡ ok out
    → All IsCleanPath out × Distinct out × Apart out seen
unfolding clean_paths
clean_paths-nil seen [] e = (tt, tt, tt)
clean_paths-nil seen (p ∷ out) e = cc

-- What the loop returns: clean paths, none of them twice and none of them seen before.
clean_paths_sound :
    (seen value : List Text) {out : List Text}
    → clean_paths seen value ≡ ok out
    → All IsCleanPath out × Distinct out × Apart out seen
clean_paths_sound seen [] {out} h = clean_paths-nil seen out h
clean_paths_sound seen (raw ∷ value) h = elim (clean_paths-Outcome seen raw value h) [
  | skipped clean old e ↦ clean_paths_sound seen value e
  | taken rest clean new e last ↦
      let (all_clean, distinct, apart) = clean_paths_sound (strip raw ∷ seen) value e in
      let (fresh, apart') = Apart-cons (strip raw) rest seen apart in
      rw last ((clean, all_clean), (fresh, distinct), (new, apart'))
]

-- The loop gives back a list of clean paths that differ from one another and from those seen.
clean_paths_complete :
    (seen value : List Text)
    → All IsCleanPath value
    → Distinct value
    → Apart value seen
    → clean_paths seen value ≡ ok value
unfolding clean_paths is_invalid_path
clean_paths_complete seen [] clean d a = refl
clean_paths_complete seen (p ∷ value) clean d a =
    let ih =
      clean_paths_complete (p ∷ seen) value clean.1 d.1 (Apart-cons_of p value seen d.0 a.1) in
    rw clean.0.stripped (rw (clean.0.not_empty, clean.0.relative, clean.0.downward, a.0) (rw ih))

-- No path stands twice, each is clean, and no path is both allowed and blocked.
pub record IsSafe (s : TaskScope) : Type 0 where
  pub repo_named : (strip s.repo_path ≡ s.repo_path) × (is_nil s.repo_path ≡ false)
  pub allowed_clean : All IsCleanPath s.allowed_paths
  pub blocked_clean : All IsCleanPath s.blocked_paths
  pub allowed_differ : Distinct s.allowed_paths
  pub blocked_differ : Distinct s.blocked_paths
  pub disjoint : (p : Text) → mem? p s.allowed_paths ≡ true → mem? p s.blocked_paths ≡ false

scope_parts :
    (s : TaskScope) {s' : TaskScope}
    → check_scope s ≡ ok s'
    → (required repo_path_empty s.repo_path ≡ ok s'.repo_path)
      × (clean_paths [] s.allowed_paths ≡ ok s'.allowed_paths)
      × (clean_paths [] s.blocked_paths ≡ ok s'.blocked_paths)
      × (any? (λ p. mem? p s'.blocked_paths) s'.allowed_paths ≡ false)
unfolding check_scope validate_subpaths validate_no_path_overlap
scope_parts s h = ground arith

-- A scope that its validators return is safe: the paths are relative, stripped, without `..`, and
-- differ, and the allowed ones and the blocked ones are disjoint.
pub check_scope-IsSafe : (s : TaskScope) {s' : TaskScope} → check_scope s ≡ ok s' → IsSafe s'
check_scope-IsSafe s {s'} h =
    let (named, allowed, blocked, overlap) = scope_parts s h in
    let (clean, differ, _) = clean_paths_sound [] s.allowed_paths allowed in
    let (clean', differ', _) = clean_paths_sound [] s.blocked_paths blocked in
    record {
      repo_named = required-normal repo_path_empty s.repo_path named;
      allowed_clean = clean;
      blocked_clean = clean';
      allowed_differ = differ;
      blocked_differ = differ';
      disjoint = λ p m. any?-false (λ q. mem? q s'.blocked_paths) s'.allowed_paths p overlap m;
    }

-- Its validators return a safe scope as it is; so a validated scope can be validated again.
pub check_scope-safe : (s : TaskScope) → IsSafe s → check_scope s ≡ ok s
unfolding check_scope validate_subpaths validate_no_path_overlap
check_scope-safe s safe =
    let allowed =
      clean_paths_complete [] s.allowed_paths safe.allowed_clean safe.allowed_differ
        (Apart-nil _) in
    let blocked =
      clean_paths_complete [] s.blocked_paths safe.blocked_clean safe.blocked_differ
        (Apart-nil _) in
    let overlap = any?-false_of (λ p. mem? p s.blocked_paths) s.allowed_paths safe.disjoint in
    let named = required_normal repo_path_empty s.repo_path safe.repo_named.0 safe.repo_named.1 in
    rw named (rw allowed (rw blocked (rw overlap)))
