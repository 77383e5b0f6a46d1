-- ===== src/Safety/Rules.antt =====
-- What the validators of models/approval_safety.py establish of rules, decisions and policies.
use nova_harness.Prelude.{
  Distinct, [], arith, false, first_repeat_iff, is_blank, is_nil, is_some, map, nat_eq, none, not,
  ok, required, required-ok, required_solid, some, strip, text_eq, true, ◌&&◌, ◌==◌, ◌↔◌, ◌≡◌, ◌≢◌,
}
use nova_harness.Safety.{
  ActionRiskRule, ApprovalSafetyPolicy, SafetyDecision, allow, block, check_decision, check_policy,
  check_risk_rule, network, no_text, policy_id_empty, rationale_empty, require_approval,
  resource_type_eq, rule_action_name_empty, rule_id_empty, safety_action_eq, secret,
}

-- A rule that asks for an approval says which; a network rule that allows names hosts; a rule about
-- secrets names secrets.
pub record IsScoped (r : ActionRiskRule) : Type 0 where
  pub approval_stated : r.safety_action ≡ require_approval → r.approval_requirement ≢ none
  pub hosts_named : r.resource_type ≡ network → r.safety_action ≡ allow → r.allowed_hosts ≢ []
  pub secrets_named : r.resource_type ≡ secret → r.allowed_secret_names ≢ []

abbrev pub stripped_rule : ActionRiskRule → ActionRiskRule
stripped_rule r = record r {
  rule_id = strip r.rule_id;
  action_name = strip r.action_name;
  rationale = strip r.rationale;
}

rule_parts :
    (r : ActionRiskRule) {r' : ActionRiskRule}
    → check_risk_rule r ≡ ok r'
    → (required rule_id_empty r.rule_id ≡ ok r'.rule_id)
      × (required rule_action_name_empty r.action_name ≡ ok r'.action_name)
      × (required rationale_empty r.rationale ≡ ok r'.rationale)
      × (r' ≡ record r {
        rule_id = r'.rule_id;
        action_name = r'.action_name;
        rationale = r'.rationale;
      })
      × (r.safety_action == require_approval && not (is_some r.approval_requirement) ≡ false)
      × (r.resource_type == network && r.safety_action == allow && is_nil r.allowed_hosts ≡ false)
      × (r.resource_type == secret && is_nil r.allowed_secret_names ≡ false)
unfolding check_risk_rule
rule_parts r h = ground arith

-- A risk rule is accepted exactly when its id, its action and its rationale are not blank and it is
-- scoped; what is returned differs by the stripped texts alone.
pub check_risk_rule_iff :
    (r r' : ActionRiskRule)
    → (check_risk_rule r ≡ ok r') ↔ (
        (is_blank r.rule_id ≡ false)
        × (is_blank r.action_name ≡ false)
        × (is_blank r.rationale ≡ false)
        × IsScoped r
        × (r' ≡ stripped_rule r))
unfolding check_risk_rule
check_risk_rule_iff r r' = (
  (λ h.
      let (id, action, rationale, same, gate, hosts, secrets) = rule_parts r h in
      let (id_solid, id_stripped) = required-ok rule_id_empty r.rule_id id in
      let (action_solid, action_stripped) =
        required-ok rule_action_name_empty r.action_name action in
      let (rationale_solid, rationale_stripped) =
        required-ok rationale_empty r.rationale rationale in
      (
        id_solid,
        action_solid,
        rationale_solid,
        record {
          approval_stated = λ p e. ground arith;
          hosts_named = λ p q e. ground arith;
          secrets_named = λ p e. ground arith;
        },
        cc (same, id_stripped, action_stripped, rationale_stripped),
      )),
  (λ (id_solid, action_solid, rationale_solid, scoped, same). ground (
    arith,
    required_solid rule_id_empty r.rule_id id_solid,
    required_solid rule_action_name_empty r.action_name action_solid,
    required_solid rationale_empty r.rationale rationale_solid,
  )),
)

-- A decision that its validators return, if it was approved, names its approver and is no block.
pub check_decision_approved :
    (d : SafetyDecision) {d' : SafetyDecision}
    → check_decision d ≡ ok d'
    → d'.approved ≡ some true
    → (d'.safety_action ≢ block) × (no_text d'.approver_id ≡ false)
unfolding check_decision
check_decision_approved d h signed = ((λ e. ground arith), ground arith)

-- A policy is accepted exactly when its id is not blank and its rules have different ids.
pub check_policy_iff :
    (p p' : ApprovalSafetyPolicy)
    → (check_policy p ≡ ok p') ↔ (
        (is_blank p.policy_id ≡ false)
        × Distinct (map (λ r. r.rule_id) p.rules)
        × (p' ≡ record p { policy_id = strip p.policy_id }))
unfolding check_policy
check_policy_iff p p' =
    let (sound, complete) = first_repeat_iff (map (λ r. r.rule_id) p.rules) in
    (
      (λ h.
          let (solid, stripped) =
            required-ok policy_id_empty p.policy_id {value = p'.policy_id} (ground arith) in
          (solid, sound (ground arith), ground arith)),
      (λ (solid, distinct, same).
          ground (arith, required_solid policy_id_empty p.policy_id solid, complete distinct)),
    )
