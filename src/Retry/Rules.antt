-- ===== src/Retry/Rules.antt =====
-- What the validators of models/retry_recovery.py accept.
use nova_harness.Prelude.{
  Distinct, ap, arith, false, first_repeat_iff, is_blank, mem?, nat_eq, negsuc, ok, pos, refl,
  required-ok, required_solid, strip, text_eq, true, ℕ, ℤ, ◌<◌, ◌↔◌, ◌∙◌, ◌∷◌, ◌≡◌, ◌≤◌,
}
use nova_harness.Retry.{
  RetryRecoveryPolicy, RetryRule, check_retry_policy, check_retry_rule, classes, failure_class_eq,
  recovery_action_eq, retry_action, retry_policy_id_empty, unique_failure_classes,
}

-- A bounded number of attempts, delays that are not negative, a maximal delay (unless it is zero, for
-- none) that is no smaller than the first, and no plain retry where idempotency is required.
pub record IsRetryable (r : RetryRule) : Type 0 where
  pub attempts : ℕ
  pub base : ℕ
  pub most : ℕ
  pub attempts_given : r.max_attempts ≡ pos attempts
  pub base_given : r.base_delay_seconds ≡ pos base
  pub most_given : r.max_delay_seconds ≡ pos most
  pub ordered : 0 < most → base ≤ most
  pub idempotent : r.requires_idempotency ≡ true → mem? retry_action r.allowed_actions ≡ false

rule_kept : (r : RetryRule) {r' : RetryRule} → check_retry_rule r ≡ ok r' → r' ≡ r
unfolding check_retry_rule
rule_kept r h = ground arith

IsRetryable-of :
    (r : RetryRule) (a b m : ℤ)
    → r.max_attempts ≡ a
    → r.base_delay_seconds ≡ b
    → r.max_delay_seconds ≡ m
    → check_retry_rule r ≡ ok r
    → IsRetryable r
unfolding check_retry_rule
IsRetryable-of r (pos a) (pos b) (pos m) p q s h = record {
  attempts = a;
  base = b;
  most = m;
  attempts_given = p;
  base_given = q;
  most_given = s;
  ordered = λ some_delay. ground arith;
  idempotent = λ needs. ground arith;
}
IsRetryable-of r (negsuc a) b m p q s h = absurd (ground arith)
IsRetryable-of r (pos a) (negsuc b) m p q s h = absurd (ground arith)
IsRetryable-of r (pos a) (pos b) (negsuc m) p q s h = absurd (ground arith)

-- A retry rule is accepted, and returned unchanged, exactly if its numbers are not negative, its
-- maximal delay is zero or at least the first delay, and it does not allow a plain retry where it
-- requires idempotency.
pub check_retry_rule_iff :
    (r r' : RetryRule) → (check_retry_rule r ≡ ok r') ↔ ((r' ≡ r) × IsRetryable r)
check_retry_rule_iff r r' = (
  (λ h.
      let same = rule_kept r h in
      (
        same,
        IsRetryable-of r r.max_attempts r.base_delay_seconds r.max_delay_seconds refl refl refl
            (h ∙ ap ok same),
      )),
  (λ (same, good).
      let ordered = good.ordered in
      let idempotent = good.idempotent in
      unfold check_retry_rule in
      ground (arith, good.attempts_given, good.base_given, good.most_given, ordered, idempotent)),
)

-- A retry policy is accepted exactly if its id is not blank and all its rules, with the one for
-- unknown failures, are about different classes of failures.
pub check_retry_policy_iff :
    (p p' : RetryRecoveryPolicy)
    → (check_retry_policy p ≡ ok p') ↔ (
        (is_blank p.policy_id ≡ false)
        × Distinct (p.default_unknown_rule.failure_class ∷ classes p.rules)
        × (p' ≡ record p { policy_id = strip p.policy_id }))
unfolding check_retry_policy unique_failure_classes
check_retry_policy_iff p p' =
    let (sound, complete) = first_repeat_iff (classes p.rules) in
    (
      (λ h.
          let (solid, stripped) =
            required-ok retry_policy_id_empty p.policy_id {value = p'.policy_id} (ground arith) in
          (solid, (ground arith, sound (ground arith)), ground arith)),
      (λ (solid, distinct, same). ground (
        arith,
        required_solid retry_policy_id_empty p.policy_id solid,
        complete distinct.1,
        distinct.0,
      )),
    )
