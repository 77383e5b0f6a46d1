-- ===== src/Examples/Budgets.antt =====
-- An envelope of a budget with one overdrawn line.
use nova_harness.Prelude.{
  [], check_every, codes, has_text, int_eq, mem?, nat_eq, negsuc, none, ok, pos, refer_to, refl,
  required, run_texts, some, text_eq, ◌∷◌, ◌≡◌,
}
use nova_harness.Budget.Checks.{
  check_budget_alert_record, check_budget_decision_record, check_budget_threshold_policy,
  check_execution_budget_envelope, check_resource_budget_line, check_resource_reservation_record,
  check_resource_usage_record, is_inconsistent,
}
use nova_harness.Budget.Envelope.{
  budget_ids_match, check_budget_ref, check_budget_resource_envelope, line_ids_of,
  references_are_valid,
}
use nova_harness.Budget.Types.{
  BudgetAlertRecord, BudgetDecisionRecord, BudgetResourceEnvelope, BudgetThresholdPolicy,
  ExecutionBudgetEnvelope, LimitSeverity-discrete, OverrunDisposition-discrete, ResourceBudgetLine,
  ResourceReservationRecord, ResourceUsageRecord, hard, limit_severity_eq, overrun,
  overrun_disposition_eq, reallocate, run, tokens,
}
use native.Mathlib.Decide.{ℕ_discrete}

abbrev example_execution_budget_envelope : ExecutionBudgetEnvelope
example_execution_budget_envelope = record {
  budget_id = codes "budget-id";
  scope_type = run;
  scope_ref = codes "scope-ref";
  parent_budget_id = none;
  budget_status = overrun;
  planning_budget_ref = none;
  execution_budget_ref = none;
  created_at = codes "2024-01-01";
  updated_at = codes "2024-01-01";
}

abbrev example_resource_budget_line : ResourceBudgetLine
example_resource_budget_line = record {
  budget_line_id = codes "budget-line-id";
  budget_id = codes "budget-id";
  resource_type = tokens;
  allocated_amount = pos 5000;
  reserved_amount = pos 2000;
  consumed_amount = pos 4000;
  remaining_amount = negsuc 999;
  unit = codes "unit";
}

abbrev example_resource_reservation_record : ResourceReservationRecord
example_resource_reservation_record = record {
  reservation_id = codes "reservation-id";
  budget_line_id = codes "budget-line-id";
  request_ref = none;
  reserved_amount = pos 1;
  reservation_reason = none;
  reserved_by = none;
  reserved_at = codes "2024-01-01";
  expires_at = none;
}

abbrev example_resource_usage_record : ResourceUsageRecord
example_resource_usage_record = record {
  usage_id = codes "usage-id";
  budget_line_id = codes "budget-line-id";
  resource_type = tokens;
  consumed_amount = pos 1;
  usage_context_ref = none;
  actor_ref = none;
  source_event_ref = none;
  recorded_at = codes "2024-01-01";
}

abbrev example_budget_threshold_policy : BudgetThresholdPolicy
example_budget_threshold_policy = record {
  threshold_policy_id = codes "threshold-policy-id";
  budget_line_id = codes "budget-line-id";
  limit_severity = hard;
  threshold_value = none;
  threshold_percent = some (pos 80000);
  action_on_cross = codes "action-on-cross";
  cooldown_policy = none;
  notification_targets = [];
}

abbrev example_budget_alert_record : BudgetAlertRecord
example_budget_alert_record = record {
  alert_id = codes "alert-id";
  budget_line_id = codes "budget-line-id";
  limit_severity = hard;
  trigger_value = pos 1;
  remaining_amount = pos 1;
  recommended_action = none;
  triggered_at = codes "2024-01-01";
}

abbrev example_budget_decision_record : BudgetDecisionRecord
example_budget_decision_record = record {
  decision_id = codes "decision-id";
  budget_id = codes "budget-id";
  overrun_disposition = reallocate;
  decision_reason = none;
  approved_by = none;
  reallocated_from_budget_id = some (codes "other");
  additional_amount = none;
  effective_from = codes "2024-01-01";
  effective_until = none;
}

abbrev example_budget_resource_envelope : BudgetResourceEnvelope
example_budget_resource_envelope = record {
  envelope_id = codes "envelope-id";
  budget = example_execution_budget_envelope;
  budget_lines = example_resource_budget_line ∷ [];
  reservations = example_resource_reservation_record ∷ [];
  usage_records = example_resource_usage_record ∷ [];
  threshold_policies = example_budget_threshold_policy ∷ [];
  alerts = example_budget_alert_record ∷ [];
  decisions = [];
}

unfoldable budget_env : Unit {0}
unfolding check_execution_budget_envelope check_resource_budget_line
    check_resource_reservation_record check_resource_usage_record check_budget_threshold_policy
    check_budget_alert_record check_budget_decision_record check_budget_resource_envelope
    references_are_valid budget_ids_match refer_to check_budget_ref line_ids_of is_inconsistent
    check_every required mem? has_text run_texts LimitSeverity-discrete OverrunDisposition-discrete
    ℕ_discrete
budget_env = tt

-- The line is overdrawn by one unit, and no decision of the envelope allows that.
budget_parts_accepted :
    (check_execution_budget_envelope example_execution_budget_envelope
      ≡ ok example_execution_budget_envelope)
    × (check_resource_budget_line example_resource_budget_line ≡ ok example_resource_budget_line)
    × (check_resource_reservation_record example_resource_reservation_record
        ≡ ok example_resource_reservation_record)
    × (check_resource_usage_record example_resource_usage_record ≡ ok example_resource_usage_record)
    × (check_budget_threshold_policy example_budget_threshold_policy
        ≡ ok example_budget_threshold_policy)
    × (check_budget_alert_record example_budget_alert_record ≡ ok example_budget_alert_record)
    × (check_budget_decision_record example_budget_decision_record
        ≡ ok example_budget_decision_record)
    × (check_budget_resource_envelope example_budget_resource_envelope
        ≡ ok example_budget_resource_envelope)
unfolding budget_env
budget_parts_accepted = (refl, refl, refl, refl, refl, refl, refl, refl)
