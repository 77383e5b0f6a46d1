-- ===== src/Budget/Checks.antt =====
-- The validators of the parts of models/execution_budget_resource_contract.py.
use nova_harness.Prelude.{
  Bool, ModelError, Result, codes, given_above, given_below, has_text, is_blank, is_some, ltb,
  ltb_ℤ, nat_eq, neg_part, not, ok, out_of_range, pos, pos_part, refuse, refused_by, solid, suc,
  text_eq, ℕ, ◌&&◌, ◌+◌, ◌==◌, ◌>>=◌, ◌>>◌, ◌||◌,
}
use nova_harness.Budget.Types.{
  BudgetAlertRecord, BudgetDecisionRecord, BudgetThresholdPolicy, ExecutionBudgetEnvelope,
  ResourceBudgetLine, ResourceReservationRecord, ResourceUsageRecord, hard, limit_severity_eq,
  overrun_disposition_eq, reallocate,
}

-- `abs(remaining - (allocated - reserved - consumed)) > 0.001`, with all amounts on their sides.
abbrev pub is_apart : ℕ → ℕ → Bool
is_apart a b = ltb (suc a) b || ltb (suc b) a

unfoldable pub is_inconsistent : ResourceBudgetLine → Bool
is_inconsistent x =
    is_apart
      (pos_part x.remaining_amount
        + (pos_part x.reserved_amount + (pos_part x.consumed_amount + neg_part x.allocated_amount)))
      (neg_part x.remaining_amount
        + (neg_part x.reserved_amount + (neg_part x.consumed_amount + pos_part x.allocated_amount)))

unfoldable pub check_execution_budget_envelope :
    ExecutionBudgetEnvelope → Result ModelError ExecutionBudgetEnvelope
check_execution_budget_envelope x = do
  budget_id ← solid (codes "budget_id") x.budget_id
  scope_ref ← solid (codes "scope_ref") x.scope_ref
  ok (record x { budget_id = budget_id; scope_ref = scope_ref })

unfoldable pub check_resource_budget_line :
    ResourceBudgetLine → Result ModelError ResourceBudgetLine
check_resource_budget_line x = do
  budget_line_id ← solid (codes "budget_line_id") x.budget_line_id
  budget_id ← solid (codes "budget_id") x.budget_id
  refuse (ltb_ℤ x.allocated_amount (pos 0)) (out_of_range (codes "allocated_amount"))
  refuse (ltb_ℤ x.reserved_amount (pos 0)) (out_of_range (codes "reserved_amount"))
  refuse (ltb_ℤ x.consumed_amount (pos 0)) (out_of_range (codes "consumed_amount"))
  unit ← solid (codes "unit") x.unit
  refuse (is_inconsistent x) (refused_by (codes "remaining_must_be_consistent"))
  ok (record x { budget_line_id = budget_line_id; budget_id = budget_id; unit = unit })

unfoldable pub check_resource_reservation_record :
    ResourceReservationRecord → Result ModelError ResourceReservationRecord
check_resource_reservation_record x = do
  reservation_id ← solid (codes "reservation_id") x.reservation_id
  budget_line_id ← solid (codes "budget_line_id") x.budget_line_id
  refuse (ltb_ℤ x.reserved_amount (pos 0)) (out_of_range (codes "reserved_amount"))
  ok (record x { reservation_id = reservation_id; budget_line_id = budget_line_id })

unfoldable pub check_resource_usage_record :
    ResourceUsageRecord → Result ModelError ResourceUsageRecord
check_resource_usage_record x = do
  usage_id ← solid (codes "usage_id") x.usage_id
  budget_line_id ← solid (codes "budget_line_id") x.budget_line_id
  refuse (ltb_ℤ x.consumed_amount (pos 0)) (out_of_range (codes "consumed_amount"))
  ok (record x { usage_id = usage_id; budget_line_id = budget_line_id })

unfoldable pub check_budget_threshold_policy :
    BudgetThresholdPolicy → Result ModelError BudgetThresholdPolicy
check_budget_threshold_policy x = do
  threshold_policy_id ← solid (codes "threshold_policy_id") x.threshold_policy_id
  budget_line_id ← solid (codes "budget_line_id") x.budget_line_id
  refuse (given_below (pos 0) x.threshold_value) (out_of_range (codes "threshold_value"))
  refuse (given_below (pos 0) x.threshold_percent || given_above (pos 100000) x.threshold_percent)
      (out_of_range (codes "threshold_percent"))
  action_on_cross ← solid (codes "action_on_cross") x.action_on_cross
  refuse (x.limit_severity == hard && is_blank action_on_cross)
      (refused_by (codes "hard_threshold_must_have_action"))
  refuse (not (is_some x.threshold_value) && not (is_some x.threshold_percent))
      (refused_by (codes "must_have_threshold_value_or_percent"))
  ok (record x {
    threshold_policy_id = threshold_policy_id;
    budget_line_id = budget_line_id;
    action_on_cross = action_on_cross;
  })

unfoldable pub check_budget_alert_record : BudgetAlertRecord → Result ModelError BudgetAlertRecord
check_budget_alert_record x = do
  alert_id ← solid (codes "alert_id") x.alert_id
  budget_line_id ← solid (codes "budget_line_id") x.budget_line_id
  refuse (ltb_ℤ x.trigger_value (pos 0)) (out_of_range (codes "trigger_value"))
  ok (record x { alert_id = alert_id; budget_line_id = budget_line_id })

unfoldable pub check_budget_decision_record :
    BudgetDecisionRecord → Result ModelError BudgetDecisionRecord
check_budget_decision_record x = do
  decision_id ← solid (codes "decision_id") x.decision_id
  budget_id ← solid (codes "budget_id") x.budget_id
  refuse (given_below (pos 0) x.additional_amount) (out_of_range (codes "additional_amount"))
  refuse (x.overrun_disposition == reallocate && not (has_text x.reallocated_from_budget_id))
      (refused_by (codes "reallocate_requires_source"))
  ok (record x { decision_id = decision_id; budget_id = budget_id })
