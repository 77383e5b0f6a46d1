-- ===== src/Retry/Defaults.antt =====
-- `v1_default_policy` of models/retry_recovery.py.
use nova_harness.Prelude.{[], codes, false, pos, true, ◌∷◌}
use nova_harness.Retry.{
  RetryRecoveryPolicy, RetryRule, approval_refused, escalate_to_human, exponential_with_jitter,
  fail_terminal, fixed, model_output_invalid, no_backoff, non_retryable_policy, rate_limit, replan,
  resume_from_checkpoint, retry_action, tool_execution_failed, tool_input_invalid, transient_infra,
  unknown_failure, verification_failed,
}

abbrev transient_infra_rule : RetryRule
transient_infra_rule = record {
  failure_class = transient_infra;
  max_attempts = pos 3;
  backoff_strategy = exponential_with_jitter;
  base_delay_seconds = pos 100;
  max_delay_seconds = pos 3000;
  respect_retry_after = false;
  allowed_actions = retry_action ∷ resume_from_checkpoint ∷ [];
  requires_idempotency = false;
}

abbrev rate_limit_rule : RetryRule
rate_limit_rule = record {
  failure_class = rate_limit;
  max_attempts = pos 3;
  backoff_strategy = exponential_with_jitter;
  base_delay_seconds = pos 100;
  max_delay_seconds = pos 3000;
  respect_retry_after = true;
  allowed_actions = retry_action ∷ [];
  requires_idempotency = false;
}

abbrev model_output_invalid_rule : RetryRule
model_output_invalid_rule = record {
  failure_class = model_output_invalid;
  max_attempts = pos 2;
  backoff_strategy = fixed;
  base_delay_seconds = pos 100;
  max_delay_seconds = pos 100;
  respect_retry_after = false;
  allowed_actions = retry_action ∷ replan ∷ [];
  requires_idempotency = false;
}

abbrev tool_input_invalid_rule : RetryRule
tool_input_invalid_rule = record {
  failure_class = tool_input_invalid;
  max_attempts = pos 0;
  backoff_strategy = no_backoff;
  base_delay_seconds = pos 0;
  max_delay_seconds = pos 0;
  respect_retry_after = false;
  allowed_actions = replan ∷ [];
  requires_idempotency = false;
}

abbrev tool_execution_failed_rule : RetryRule
tool_execution_failed_rule = record {
  failure_class = tool_execution_failed;
  max_attempts = pos 2;
  backoff_strategy = exponential_with_jitter;
  base_delay_seconds = pos 100;
  max_delay_seconds = pos 1000;
  respect_retry_after = false;
  allowed_actions = resume_from_checkpoint ∷ replan ∷ [];
  requires_idempotency = true;
}

abbrev verification_failed_rule : RetryRule
verification_failed_rule = record {
  failure_class = verification_failed;
  max_attempts = pos 1;
  backoff_strategy = no_backoff;
  base_delay_seconds = pos 0;
  max_delay_seconds = pos 0;
  respect_retry_after = false;
  allowed_actions = retry_action ∷ replan ∷ [];
  requires_idempotency = false;
}

abbrev approval_refused_rule : RetryRule
approval_refused_rule = record {
  failure_class = approval_refused;
  max_attempts = pos 0;
  backoff_strategy = no_backoff;
  base_delay_seconds = pos 0;
  max_delay_seconds = pos 0;
  respect_retry_after = false;
  allowed_actions = replan ∷ escalate_to_human ∷ fail_terminal ∷ [];
  requires_idempotency = false;
}

abbrev non_retryable_policy_rule : RetryRule
non_retryable_policy_rule = record {
  failure_class = non_retryable_policy;
  max_attempts = pos 0;
  backoff_strategy = no_backoff;
  base_delay_seconds = pos 0;
  max_delay_seconds = pos 0;
  respect_retry_after = false;
  allowed_actions = fail_terminal ∷ [];
  requires_idempotency = false;
}

abbrev default_rule : RetryRule
default_rule = record {
  failure_class = unknown_failure;
  max_attempts = pos 1;
  backoff_strategy = fixed;
  base_delay_seconds = pos 100;
  max_delay_seconds = pos 100;
  respect_retry_after = false;
  allowed_actions = retry_action ∷ escalate_to_human ∷ [];
  requires_idempotency = false;
}

unfoldable pub v1_default_policy : RetryRecoveryPolicy
v1_default_policy = record {
  policy_id = codes "retry-recovery-v1";
  rules =
      transient_infra_rule ∷ rate_limit_rule ∷ model_output_invalid_rule ∷ tool_input_invalid_rule
      ∷ tool_execution_failed_rule ∷ verification_failed_rule ∷ approval_refused_rule
      ∷ non_retryable_policy_rule ∷ [];
  default_unknown_rule = default_rule;
}
