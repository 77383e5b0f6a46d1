-- ===== src/Budget/Envelope.antt =====
-- `BudgetResourceEnvelope` of models/execution_budget_resource_contract.py and its validators.
-- `_valid_budget_line_ids`
use nova_harness.Prelude.{
  List, ModelError, Result, Text, check_every, codes, int_eq, map, nat_eq, not, ok, refer_to,
  refuse, solid, text_eq, unknown_reference, ◌==◌, ◌>>=◌, ◌>>◌,
}
use nova_harness.Budget.Types.{BudgetResourceEnvelope, limit_severity_eq, overrun_disposition_eq}

unfoldable pub line_ids_of : BudgetResourceEnvelope → List Text
line_ids_of x = map (λ line. line.budget_line_id) x.budget_lines

-- The body of the two loops that compare the budget's id.
unfoldable pub check_budget_ref : Text → Text → Text → Result ModelError (Unit {0})
check_budget_ref budget_id field id = refuse (not (id == budget_id)) (unknown_reference field id)

unfoldable pub references_are_valid : BudgetResourceEnvelope → Result ModelError (Unit {0})
references_are_valid x = do
  let valid_ids = line_ids_of x
  check_every (λ r. refer_to valid_ids (codes "reservations") r.budget_line_id) x.reservations
  check_every (λ u. refer_to valid_ids (codes "usage_records") u.budget_line_id) x.usage_records
  check_every (λ tp. refer_to valid_ids (codes "threshold_policies") tp.budget_line_id)
      x.threshold_policies
  check_every (λ a. refer_to valid_ids (codes "alerts") a.budget_line_id) x.alerts

unfoldable pub budget_ids_match : BudgetResourceEnvelope → Result ModelError (Unit {0})
budget_ids_match x = do
  check_every (λ d. check_budget_ref x.budget.budget_id (codes "decisions") d.budget_id) x.decisions
  check_every (λ line. check_budget_ref x.budget.budget_id (codes "budget_lines") line.budget_id)
      x.budget_lines

-- The construction of an envelope from parts that have been validated.
unfoldable pub check_budget_resource_envelope :
    BudgetResourceEnvelope → Result ModelError BudgetResourceEnvelope
check_budget_resource_envelope x = do
  envelope_id ← solid (codes "envelope_id") x.envelope_id
  references_are_valid x
  budget_ids_match x
  ok (record x { envelope_id = envelope_id })
