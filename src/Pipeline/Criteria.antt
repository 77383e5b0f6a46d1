-- ===== src/Pipeline/Criteria.antt =====
-- `_check_criterion` of harness/pipeline.py.
use nova_harness.Prelude.{
  Bool, List, Result, Text, [], codes, has_part, if◌then◌else◌, is_nil, join, keep, leb, length,
  mem?, nat_eq, some, strip, text_eq, ◌++◌, ◌||◌, ◌∷◌,
}
use nova_harness.Pipeline.Build.{target_of}
use nova_harness.Task.{
  SuccessCriterion, VerificationKind, approval_trigger_eq, diff_review, lint, test, tool_name_eq,
  typecheck, verification_kind_eq,
}
use nova_harness.Trace.{
  TraceError, TraceEventStatus, VerificationTrace, check_verification_trace, failure,
  policy_outcome_type_eq, success, trace_event_status_eq,
}

abbrev test_patterns : List Text
test_patterns =
    codes "test"
    ∷ codes "assert"
    ∷ codes "def test_"
    ∷ codes "pytest"
    ∷ codes "unittest"
    ∷ codes "TestCase"
    ∷ codes "pytest.mark"
    ∷ []

abbrev type_patterns : List Text
type_patterns =
    codes ": int"
    ∷ codes ": str"
    ∷ codes ": float"
    ∷ codes ": bool"
    ∷ codes ": list"
    ∷ codes ": dict"
    ∷ codes ": tuple"
    ∷ codes ": set"
    ∷ codes "-> "
    ∷ codes "Optional["
    ∷ codes "List["
    ∷ codes "Dict["
    ∷ codes "Union["
    ∷ codes "Any"
    ∷ codes "Sequence["
    ∷ []

-- `[p for p in patterns if p in text]`
unfoldable pub found_in : List Text → Text → List Text
found_in patterns text = keep (λ p. has_part p text) patterns

-- The output says nothing: `not stripped or stripped in ("{}", "{'mock': True}")`.
unfoldable pub is_no_output : Text → Bool
is_no_output stripped = is_nil stripped || mem? stripped (codes "{}" ∷ codes "{'mock': True}" ∷ [])

-- The status and the summary that a criterion of the kind gives a stripped output.
unfoldable pub judge : (Text → Text) → VerificationKind → Text → TraceEventStatus × Text
judge lower kind stripped =
    if is_no_output stripped then (failure, codes "no output produced") else elim kind [
      | test ↦
          let found = found_in test_patterns (lower stripped) in
          if is_nil found
          then (failure, codes "no test patterns in output")
          else (success, codes "test patterns found: " ++ join (codes ", ") found)
      | lint ↦
          if leb 20 (length stripped)
          then (success, codes "output has sufficient content")
          else (failure, codes "output too short")
      | typecheck ↦
          let found = found_in type_patterns stripped in
          if is_nil found
          then (failure, codes "no type annotations")
          else (success, codes "type annotations: " ++ join (codes ", ") found)
      | diff_review ↦ (success, codes "output produced")
    ]

unfoldable pub criterion_trace : (Text → Text) → SuccessCriterion → Text → VerificationTrace
criterion_trace lower criterion content =
    let (status, summary) = judge lower criterion.kind (strip content) in
    record { check_name = target_of criterion; status = status; summary = some summary }

-- `_check_criterion`
unfoldable pub check_criterion :
    (Text → Text) → SuccessCriterion → Text → Result TraceError VerificationTrace
check_criterion lower criterion content =
    check_verification_trace (criterion_trace lower criterion content)
