-- ===== src/Recovery/Rules.antt =====
-- Which recoveries of models/retry_recovery_compensation_contract.py the validators accept.
use nova_harness.Prelude.{
  ==_sound, All, Bool-cases, List, Option, [], any?, ap, arith, codes, false, inl, inr, int_eq,
  is_blank, length, ltb, nat_eq, none, ok, refl, solid_iff, some, strip, text_eq, true, ◌&&◌, ◌==◌,
  ◌↔◌, ◌∷◌, ◌≡◌, ◌≢◌,
}
use nova_harness.Recovery.Envelope.{
  check_recovery_envelope, compensation_failures_remain_visible, has_failed, hides_failure,
  is_no_retry, is_safe, none_strategy_no_attempts, unknown_state_blocks_safe_dispositions,
}
use nova_harness.Recovery.Types.{
  CompensationActionRecord, CompensationPlanRecord, FailureDisposition, RetryAttemptRecord,
  RetryPolicyRecord, RetryRecoveryCompensationEnvelope, compensated, compensation_status_eq,
  completed, failed, failure_disposition_eq, no_retry, recovered, recovery_mode_eq,
  retry_strategy_eq,
}

no_retry_iff :
    (policy : Option RetryPolicyRecord) (attempts : List RetryAttemptRecord)
    → ((is_no_retry policy && ltb 0 (length attempts)) ≡ false)
      ↔ ((rp : RetryPolicyRecord) → policy ≡ some rp → rp.retry_strategy ≡ no_retry → attempts ≡ [])
unfolding is_no_retry
no_retry_iff none attempts = ((λ h rp e. cc), (λ f. refl))
no_retry_iff (some rp) [] = ((λ h rp' e s. refl), (λ f. ground arith))
no_retry_iff (some rp) (a ∷ attempts) = (
  (λ h rp' e s.
      let same : rp ≡ rp' = cc e in absurd (ground (arith, ap (λ p. p.retry_strategy) same))),
  (λ f. ground (arith, f rp refl)),
)

safe_iff :
    (disposition : Option FailureDisposition)
    → (is_safe disposition ≡ false)
      ↔ ((disposition ≢ some recovered) × (disposition ≢ some compensated))
unfolding is_safe
safe_iff none = ((λ h. ((λ e. cc), (λ e. cc))), (λ f. refl))
safe_iff (some d) = (
  (λ h. ((λ e. ground (arith, e)), (λ e. ground (arith, e)))),
  (λ f. elim (Bool-cases (is_safe (some d))) [
    | inl safe ↦ elim (Bool-cases (d == recovered)) [
      | inl e ↦ absurd (f.0 (ap some (==_sound d recovered e)))
      | inr n ↦ absurd (f.1 (ap some (==_sound d compensated (ground arith))))
    ]
    | inr n ↦ n
  ]),
)

quiet_iff :
    (actions : List CompensationActionRecord)
    → (any? has_failed actions ≡ false) ↔ All (λ a. a.status ≢ failed) actions
unfolding any? has_failed
quiet_iff [] = ((λ h. tt), (λ a. refl))
quiet_iff (a ∷ actions) =
    let ih = quiet_iff actions in
    ((λ h. ((λ e. ground arith), ih.0 (ground arith))), (λ n. ground (arith, n.0, ih.1 n.1)))

hides_iff :
    (plan : Option CompensationPlanRecord)
    → (hides_failure plan ≡ false) ↔ (
        (cp : CompensationPlanRecord)
        → plan ≡ some cp
        → cp.plan_status ≡ completed
        → All (λ a. a.status ≢ failed) cp.actions)
unfolding hides_failure
hides_iff none = ((λ h cp e. cc), (λ f. refl))
hides_iff (some cp) =
    let quiet = quiet_iff cp.actions in
    (
      (λ h cp' e done.
          let same : cp ≡ cp' = cc e in
          rw (← same) (quiet.0 (ground (arith, ap (λ p. p.plan_status) same)))),
      (λ f. elim (Bool-cases (cp.plan_status == completed)) [
        | inl done ↦ ground (arith, quiet.1 (f cp refl (==_sound cp.plan_status completed done)))
        | inr n ↦ ground arith
      ]),
    )

-- What an accepted envelope says.
pub record IsVisible (x : RetryRecoveryCompensationEnvelope) : Type 0 where
  pub named : is_blank x.envelope_id ≡ false
  pub not_retried :
      (rp : RetryPolicyRecord)
      → x.retry_policy ≡ some rp
      → rp.retry_strategy ≡ no_retry
      → x.retry_attempts ≡ []
  pub not_safe :
      x.failure.unknown_state ≡ true
      → (x.failure_disposition ≢ some recovered) × (x.failure_disposition ≢ some compensated)
  pub not_hidden :
      (cp : CompensationPlanRecord)
      → x.compensation_plan ≡ some cp
      → cp.plan_status ≡ completed
      → All (λ a. a.status ≢ failed) cp.actions

-- An envelope is accepted exactly if its id is not blank, it has no attempts under a policy that does
-- not retry, a failure that leaves an unknown state is neither recovered nor compensated, and a
-- completed compensation has no failed action; then only the id is stripped.
pub check_recovery_envelope_iff :
    (x y : RetryRecoveryCompensationEnvelope)
    → (check_recovery_envelope x ≡ ok y)
      ↔ (IsVisible x × (y ≡ record x { envelope_id = strip x.envelope_id }))
unfolding check_recovery_envelope none_strategy_no_attempts unknown_state_blocks_safe_dispositions
    compensation_failures_remain_visible
check_recovery_envelope_iff x y =
    let id = solid_iff (codes "envelope_id") x.envelope_id y.envelope_id in
    let retried = no_retry_iff x.retry_policy x.retry_attempts in
    let safe = safe_iff x.failure_disposition in
    let hides = hides_iff x.compensation_plan in
    (
      (λ h.
          let i = id.0 (ground arith) in
          (
            record {
              named = i.0;
              not_retried = retried.0 (ground arith);
              not_safe = λ unknown. safe.0 (ground arith);
              not_hidden = hides.0 (ground arith);
            },
            ground (arith, i.1),
          )),
      (λ (v, same). elim (Bool-cases x.failure.unknown_state) [
        | inl unknown ↦ ground (
          arith,
          id.1 (v.named, ap (λ z. z.envelope_id) same),
          retried.1 v.not_retried,
          safe.1 (v.not_safe unknown),
          hides.1 v.not_hidden,
        )
        | inr known ↦ ground (
          arith,
          id.1 (v.named, ap (λ z. z.envelope_id) same),
          retried.1 v.not_retried,
          hides.1 v.not_hidden,
        )
      ]),
    )
