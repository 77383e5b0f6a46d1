-- ===== src/Pipeline/Shadowed.antt =====
-- Which rules of a policy `_make_safety_decision` of harness/pipeline.py can find.
use nova_harness.Prelude.{
  ==_sound, Bool-cases, List, Text, [], any?, ap, arith, false, inl, inr, nat_eq, subst, text_eq,
  true, ◌++◌, ◌==◌, ◌∷◌, ◌≡◌,
}
use nova_harness.Pipeline.Build.{decision_for, make_safety_decision, rule_for}
use nova_harness.Safety.{ActionRiskRule, check_decision, resource_type_eq, safety_action_eq}

-- A rule for another action is skipped.
rule_for_other :
    (tool : Text) (before after : List ActionRiskRule) (rule : ActionRiskRule)
    → (rule.action_name == tool) ≡ false
    → rule_for tool (before ++ rule ∷ after) ≡ rule_for tool (before ++ after)
unfolding rule_for
rule_for_other tool [] after rule other = rw other
rule_for_other tool (r ∷ before) after rule other =
    let ih = rule_for_other tool before after rule other in ground arith

same_action :
    (r rule : ActionRiskRule) (tool : Text)
    → (r.action_name == rule.action_name) ≡ true
    → (r.action_name == tool) ≡ false
    → (rule.action_name == tool) ≡ false
same_action r rule tool same other =
    subst (λ name. (name == tool) ≡ false) (==_sound r.action_name rule.action_name same) other

rule_for_shadowed :
    (tool : Text) (before after : List ActionRiskRule) (rule : ActionRiskRule)
    → any? (λ r. r.action_name == rule.action_name) before ≡ true
    → rule_for tool (before ++ rule ∷ after) ≡ rule_for tool (before ++ after)
unfolding rule_for any?
rule_for_shadowed tool [] after rule h = cc
rule_for_shadowed tool (r ∷ before) after rule h = elim (Bool-cases (r.action_name == tool)) [
  | inl this ↦ rw this
  | inr other ↦ elim (Bool-cases (r.action_name == rule.action_name)) [
    | inl same ↦
        rw other (rule_for_other tool before after rule (same_action r rule tool same other))
    | inr different ↦ rw other (rule_for_shadowed tool before after rule (ground arith))
  ]
]

-- A rule that stands after another one for the same action never decides: without it, each tool gets
-- the same decision.
pub make_safety_decision_shadowed :
    (digits tool run_id policy_id : Text) (before after : List ActionRiskRule)
    (rule : ActionRiskRule)
    → any? (λ r. r.action_name == rule.action_name) before ≡ true
    → make_safety_decision digits tool
        (record { policy_id = policy_id; rules = before ++ rule ∷ after })
        run_id
      ≡ make_safety_decision digits tool
          (record { policy_id = policy_id; rules = before ++ after })
          run_id
unfolding make_safety_decision
make_safety_decision_shadowed digits tool run_id policy_id before after rule earlier =
    ap (λ found. check_decision (decision_for digits tool run_id found))
      (rule_for_shadowed tool before after rule earlier)
