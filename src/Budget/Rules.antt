-- ===== src/Budget/Rules.antt =====
-- Which budget lines and envelopes of models/execution_budget_resource_contract.py the validators
-- accept.
-- Three amounts that are not negative, and a remaining amount that is, up to a thousandth, what the
-- reserved and the consumed one leave of the allocated one; it is negative where they exceed it.
use nova_harness.Prelude.{
  All, Known, Text, refer_to_each_iff, ap, arith, check_every_means, codes, false, int_eq, is_blank,
  nat_eq, neg_part, ok, pos, pos_part, solid_iff, strip, suc, text_eq, ℕ, ◌+◌, ◌↔◌, ◌≡◌, ◌≤◌,
}
use nova_harness.Budget.Envelope.{
  budget_ids_match, check_budget_ref, check_budget_resource_envelope, line_ids_of,
  references_are_valid,
}
use nova_harness.Budget.Types.{
  BudgetResourceEnvelope, ResourceBudgetLine, limit_severity_eq, overrun_disposition_eq,
}

pub record IsBalanced (x : ResourceBudgetLine) : Type 0 where
  pub allocated : ℕ
  pub reserved : ℕ
  pub consumed : ℕ
  pub allocated_given : x.allocated_amount ≡ pos allocated
  pub reserved_given : x.reserved_amount ≡ pos reserved
  pub consumed_given : x.consumed_amount ≡ pos consumed
  pub not_more :
      pos_part x.remaining_amount + (reserved + consumed)
      ≤ suc (neg_part x.remaining_amount + allocated)
  pub not_less :
      neg_part x.remaining_amount + allocated
      ≤ suc (pos_part x.remaining_amount + (reserved + consumed))

check_budget_ref_iff :
    (budget_id field id : Text) → (check_budget_ref budget_id field id ≡ ok tt) ↔ (id ≡ budget_id)
unfolding check_budget_ref
check_budget_ref_iff budget_id field id = ((λ h. ground arith), (λ k. ground arith))

-- All records are about the lines of the budget, and all lines and decisions about the budget.
pub record IsAccounted (x : BudgetResourceEnvelope) : Type 0 where
  pub named : is_blank x.envelope_id ≡ false
  pub reservations_known : All (λ r. Known (line_ids_of x) r.budget_line_id) x.reservations
  pub usage_known : All (λ u. Known (line_ids_of x) u.budget_line_id) x.usage_records
  pub thresholds_known : All (λ tp. Known (line_ids_of x) tp.budget_line_id) x.threshold_policies
  pub alerts_known : All (λ a. Known (line_ids_of x) a.budget_line_id) x.alerts
  pub own_decisions : All (λ d. d.budget_id ≡ x.budget.budget_id) x.decisions
  pub own_lines : All (λ line. line.budget_id ≡ x.budget.budget_id) x.budget_lines

references_iff :
    (x : BudgetResourceEnvelope)
    → (references_are_valid x ≡ ok tt) ↔ (
        All (λ r. Known (line_ids_of x) r.budget_line_id) x.reservations
        × All (λ u. Known (line_ids_of x) u.budget_line_id) x.usage_records
        × All (λ tp. Known (line_ids_of x) tp.budget_line_id) x.threshold_policies
        × All (λ a. Known (line_ids_of x) a.budget_line_id) x.alerts)
unfolding references_are_valid
references_iff x =
    let ids = line_ids_of x in
    let reservations =
      refer_to_each_iff ids (codes "reservations") (λ r. r.budget_line_id) x.reservations in
    let usage =
      refer_to_each_iff ids (codes "usage_records") (λ u. u.budget_line_id) x.usage_records in
    let thresholds =
      refer_to_each_iff ids (codes "threshold_policies") (λ tp. tp.budget_line_id)
        x.threshold_policies in
    let alerts = refer_to_each_iff ids (codes "alerts") (λ a. a.budget_line_id) x.alerts in
    (
      (λ h. (
        reservations.0 (ground arith),
        usage.0 (ground arith),
        thresholds.0 (ground arith),
        alerts.0 (ground arith),
      )),
      (λ (r, u, tp, a). ground (arith, reservations.1 r, usage.1 u, thresholds.1 tp, alerts.1 a)),
    )

matches_iff :
    (x : BudgetResourceEnvelope)
    → (budget_ids_match x ≡ ok tt) ↔ (
        All (λ d. d.budget_id ≡ x.budget.budget_id) x.decisions
        × All (λ line. line.budget_id ≡ x.budget.budget_id) x.budget_lines)
unfolding budget_ids_match
matches_iff x =
    let id = x.budget.budget_id in
    let decisions =
      check_every_means (λ d. check_budget_ref id (codes "decisions") d.budget_id) x.decisions
        (λ d. check_budget_ref_iff id (codes "decisions") d.budget_id) in
    let lines =
      check_every_means (λ line. check_budget_ref id (codes "budget_lines") line.budget_id)
        x.budget_lines (λ line. check_budget_ref_iff id (codes "budget_lines") line.budget_id) in
    (
      (λ h. (decisions.0 (ground arith), lines.0 (ground arith))),
      (λ (d, l). ground (arith, decisions.1 d, lines.1 l)),
    )

-- An envelope is accepted exactly if its id is not blank, every reservation, usage, threshold and alert
-- names a line of it, and every line and decision its budget; then only the id is stripped.
pub check_budget_resource_envelope_iff :
    (x y : BudgetResourceEnvelope)
    → (check_budget_resource_envelope x ≡ ok y)
      ↔ (IsAccounted x × (y ≡ record x { envelope_id = strip x.envelope_id }))
unfolding check_budget_resource_envelope
check_budget_resource_envelope_iff x y =
    let id = solid_iff (codes "envelope_id") x.envelope_id y.envelope_id in
    let references = references_iff x in
    let ids = matches_iff x in
    (
      (λ h.
          let named = id.0 (ground arith) in
          let (r, u, tp, a) = references.0 (ground arith) in
          let (d, l) = ids.0 (ground arith) in
          (
            record {
              named = named.0;
              reservations_known = r;
              usage_known = u;
              thresholds_known = tp;
              alerts_known = a;
              own_decisions = d;
              own_lines = l;
            },
            ground (arith, named.1),
          )),
      (λ (b, same). ground (
        arith,
        id.1 (b.named, ap (λ z. z.envelope_id) same),
        references.1 (b.reservations_known, b.usage_known, b.thresholds_known, b.alerts_known),
        ids.1 (b.own_decisions, b.own_lines),
      )),
    )
