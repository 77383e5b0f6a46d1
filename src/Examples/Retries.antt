-- ===== src/Examples/Retries.antt =====
-- The default retry policy.
use nova_harness.Prelude.{
  All, [], err, false, first_repeat, mem?, nat_eq, ok, pos, refl, required, run_texts, text_eq,
  true, ◌∷◌, ◌≡◌,
}
use nova_harness.Retry.{
  FailureClass-discrete, RecoveryAction-discrete, RetryRule, check_retry_policy, check_retry_rule,
  failure_class_eq, fixed, recovery_action_eq, retry_action, retry_without_idempotency,
  tool_execution_failed, unique_failure_classes,
}
use nova_harness.Retry.Defaults.{v1_default_policy}

default_policy_accepted_again :
    (check_retry_policy v1_default_policy ≡ ok v1_default_policy)
    × All
        (λ r. check_retry_rule r ≡ ok r)
        (v1_default_policy.default_unknown_rule ∷ v1_default_policy.rules)
unfolding v1_default_policy check_retry_policy unique_failure_classes check_retry_rule required
    run_texts first_repeat mem? FailureClass-discrete RecoveryAction-discrete
default_policy_accepted_again =
    (refl, (refl, (refl, (refl, (refl, (refl, (refl, (refl, (refl, (refl, tt))))))))))

abbrev unsafe_rule : RetryRule
unsafe_rule = record {
  failure_class = tool_execution_failed;
  max_attempts = pos 2;
  backoff_strategy = fixed;
  base_delay_seconds = pos 100;
  max_delay_seconds = pos 100;
  respect_retry_after = false;
  allowed_actions = retry_action ∷ [];
  requires_idempotency = true;
}

unsafe_rule_refused : check_retry_rule unsafe_rule ≡ err retry_without_idempotency
unfolding check_retry_rule mem? RecoveryAction-discrete
unsafe_rule_refused = refl
