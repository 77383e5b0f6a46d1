-- ===== src/Safety.antt =====
-- models/approval_safety.py: risk rules, decisions and policies.
pub mod Rules
pub mod Defaults
use nova_harness.Prelude.{
  Bool, Eq, List, Option, Result, Text, [], codes, err, false, first_repeat, is_nil, is_some, ltb_ℤ,
  map, nat_eq, none, not, ok, pos, refuse, required, some, text_eq, true, ℤ, ◌&&◌, ◌==◌, ◌>>=◌,
  ◌>>◌,
}

pub data RiskLevel : Type 0 where
  low medium high critical : RiskLevel

pub data SafetyAction : Type 0 where
  allow require_approval block : SafetyAction

pub data ResourceType : Type 0 where
  filesystem network secret process external_side_effect : ResourceType

unfoldable pub SafetyAction-discrete : Discrete SafetyAction
SafetyAction-discrete = hlevel

unfoldable pub ResourceType-discrete : Discrete ResourceType
ResourceType-discrete = hlevel

instance abbrev pub safety_action_eq : Eq SafetyAction
safety_action_eq = record { eq? = SafetyAction-discrete }

instance abbrev pub resource_type_eq : Eq ResourceType
resource_type_eq = record { eq? = ResourceType-discrete }

-- `RiskLevel.value`
unfoldable pub risk_value : RiskLevel → Text
risk_value low = codes "low"
risk_value medium = codes "medium"
risk_value high = codes "high"
risk_value critical = codes "critical"

pub record ApprovalRequirement : Type 0 where
  pub require_human : Bool
  pub approver_role : Option Text
  pub reason_required : Bool
  pub expires_in_seconds : Option ℤ

pub record ActionRiskRule : Type 0 where
  pub rule_id : Text
  pub action_name : Text
  pub resource_type : ResourceType
  pub risk_level : RiskLevel
  pub safety_action : SafetyAction
  pub rationale : Text
  pub allowed_path_prefixes : List Text
  pub allowed_hosts : List Text
  pub allowed_secret_names : List Text
  pub approval_requirement : Option ApprovalRequirement

pub record ApprovalRequest : Type 0 where
  pub request_id : Text
  pub run_id : Text
  pub action_name : Text
  pub risk_level : RiskLevel
  pub reason : Text
  pub requested_by_agent : Text
  pub requested_arguments_summary : Text
  pub expires_at : Option Text

pub record SafetyDecision : Type 0 where
  pub decision_id : Text
  pub run_id : Text
  pub action_name : Text
  pub risk_level : RiskLevel
  pub safety_action : SafetyAction
  pub approved : Option Bool
  pub approver_id : Option Text
  pub decision_reason : Text

pub record ApprovalSafetyPolicy : Type 0 where
  pub policy_id : Text
  pub rules : List ActionRiskRule

pub data SafetyError : Type 0 where
  expiration_not_positive : SafetyError
  rule_id_empty rule_action_name_empty rationale_empty : SafetyError
  approval_requirement_missing allowed_hosts_missing allowed_secret_names_missing : SafetyError
  request_text_empty decision_text_empty approver_id_missing block_overridden : SafetyError
  policy_id_empty : SafetyError
  duplicate_rule_id : Text → SafetyError

unfoldable pub check_requirement : ApprovalRequirement → Result SafetyError ApprovalRequirement
check_requirement a = elim a.expires_in_seconds [
  | none ↦ ok a
  | some seconds ↦ refuse (not (ltb_ℤ (pos 0) seconds)) expiration_not_positive >> ok a
]

unfoldable pub check_risk_rule : ActionRiskRule → Result SafetyError ActionRiskRule
check_risk_rule r = do
  rule_id ← required rule_id_empty r.rule_id
  action_name ← required rule_action_name_empty r.action_name
  rationale ← required rationale_empty r.rationale
  refuse (r.safety_action == require_approval && not (is_some r.approval_requirement))
      approval_requirement_missing
  refuse (r.resource_type == network && r.safety_action == allow && is_nil r.allowed_hosts)
      allowed_hosts_missing
  refuse (r.resource_type == secret && is_nil r.allowed_secret_names) allowed_secret_names_missing
  ok (record r { rule_id = rule_id; action_name = action_name; rationale = rationale })

unfoldable pub check_request : ApprovalRequest → Result SafetyError ApprovalRequest
check_request r = do
  request_id ← required request_text_empty r.request_id
  run_id ← required request_text_empty r.run_id
  action_name ← required request_text_empty r.action_name
  reason ← required request_text_empty r.reason
  requested_by_agent ← required request_text_empty r.requested_by_agent
  summary ← required request_text_empty r.requested_arguments_summary
  ok (record r {
    request_id = request_id;
    run_id = run_id;
    action_name = action_name;
    reason = reason;
    requested_by_agent = requested_by_agent;
    requested_arguments_summary = summary;
  })

-- `self.approved is True`
abbrev pub is_true : Option Bool → Bool
is_true none = false
is_true (some b) = b

-- `not self.approver_id`: it is None or empty.
abbrev pub no_text : Option Text → Bool
no_text none = true
no_text (some t) = is_nil t

unfoldable pub check_decision : SafetyDecision → Result SafetyError SafetyDecision
check_decision d = do
  decision_id ← required decision_text_empty d.decision_id
  run_id ← required decision_text_empty d.run_id
  action_name ← required decision_text_empty d.action_name
  decision_reason ← required decision_text_empty d.decision_reason
  refuse (is_true d.approved && no_text d.approver_id) approver_id_missing
  refuse (d.safety_action == block && is_true d.approved) block_overridden
  ok (record d {
    decision_id = decision_id;
    run_id = run_id;
    action_name = action_name;
    decision_reason = decision_reason;
  })

unfoldable pub check_policy : ApprovalSafetyPolicy → Result SafetyError ApprovalSafetyPolicy
check_policy p = do
  policy_id ← required policy_id_empty p.policy_id
  elim (first_repeat [] (map (λ r. r.rule_id) p.rules)) [
    | none ↦ ok (record p { policy_id = policy_id })
    | some rule_id ↦ err (duplicate_rule_id rule_id)
  ]
