-- ===== src/Clarify/Answered.antt =====
-- What has been said about the gaps when models/clarification_resolution_contract.py lets a task
-- proceed, where the parts of an envelope are what their own validators returned.
use nova_harness.Prelude.{
  All, All-Memᴰ, Bool, Known, Memᴰ, Memᴰ-keep, arith, has_text, int_eq, keep, mem?, mem?-map,
  nat_eq, ok, text_eq, true, ◌||◌, ◌≡◌,
}
use nova_harness.Clarify.Checks.{
  check_field_resolution_record, check_missing_info_gap_record, resolved_states,
}
use nova_harness.Clarify.Envelope.{check_clarification_envelope, proceeds, resolved_gap_ids}
use nova_harness.Clarify.Rules.{check_clarification_envelope_iff}
use nova_harness.Clarify.Types.{
  ClarificationResolutionEnvelope, FieldResolutionRecord, MissingInfoGapRecord, blocking_severity,
  clarification_disposition_eq, gap_severity_eq, resolution_method_eq, resolution_status_eq,
}

-- What the construction of a record returned.
abbrev pub IsGapBuilt : MissingInfoGapRecord → Type 0
IsGapBuilt g = (given : MissingInfoGapRecord) × (check_missing_info_gap_record given ≡ ok g)

abbrev pub IsResolutionBuilt : FieldResolutionRecord → Type 0
IsResolutionBuilt fr =
    (given : FieldResolutionRecord) × (check_field_resolution_record given ≡ ok fr)

blocking_of :
    (g : MissingInfoGapRecord)
    → IsGapBuilt g
    → g.gap_severity ≡ blocking_severity
    → g.blocking ≡ true
unfolding check_missing_info_gap_record
blocking_of g (given, h) e = ground (arith, e)

said_of :
    (fr : FieldResolutionRecord)
    → IsResolutionBuilt fr
    → mem? fr.resolution_status resolved_states ≡ true
    → (has_text fr.resolved_value_ref || has_text fr.notes) ≡ true
unfolding check_field_resolution_record
said_of fr (given, h) e = ground (arith, e)

-- Let an envelope be accepted whose gaps and resolutions were built by their own validators. If its
-- decision is to proceed, with or without gaps, then for each gap of blocking severity it has a
-- resolution of that gap in a final state, with a value or with notes.
pub check_clarification_envelope_answers :
    (x y : ClarificationResolutionEnvelope) (g : MissingInfoGapRecord)
    → check_clarification_envelope x ≡ ok y
    → All IsGapBuilt x.gaps
    → All IsResolutionBuilt x.field_resolutions
    → proceeds x ≡ true
    → Memᴰ g x.gaps
    → g.gap_severity ≡ blocking_severity
    → (fr : FieldResolutionRecord) × Memᴰ fr x.field_resolutions
      × (fr.gap_id ≡ g.gap_id)
      × (mem? fr.resolution_status resolved_states ≡ true)
      × ((has_text fr.resolved_value_ref || has_text fr.notes) ≡ true)
unfolding resolved_gap_ids
check_clarification_envelope_answers x y g h gaps resolutions goes listed e =
    let (_, _, _, unblocked, _) = (check_clarification_envelope_iff x y).0 h in
    let blocks = blocking_of g (All-Memᴰ IsGapBuilt x.gaps gaps listed) e in
    let answered =
      All-Memᴰ (λ g. g.blocking ≡ true → Known (resolved_gap_ids x) g.gap_id) x.gaps
        (unblocked goes) listed blocks in
    let is_final : FieldResolutionRecord → Bool = λ r. mem? r.resolution_status resolved_states in
    let (fr, kept, same) =
      mem?-map (λ fr. fr.gap_id) (keep is_final x.field_resolutions) g.gap_id answered in
    let (given, final) = Memᴰ-keep is_final x.field_resolutions kept in
    let built = All-Memᴰ IsResolutionBuilt x.field_resolutions resolutions given in
    (fr, given, same, final, said_of fr built final)
