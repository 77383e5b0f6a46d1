-- ===== src/Loop/Rules.antt =====
-- Which loops of models/running_loop_contract.py the validators accept.
use nova_harness.Prelude.{
  All, Bool, Bool-cases, Option, Text, ap, arith, check_every_means, codes, false, inl, inr,
  is_blank, is_some, mem?, nat_eq, none, ok, solid_iff, some, strip, text_eq, true, ◌&&◌, ◌==◌,
  ◌||◌, ◌↔◌, ◌≡◌,
}
use nova_harness.Loop.Envelope.{
  active_loop_has_next_action, check_running_loop, check_verified, is_unverified,
  stop_reason_aligned_with_status, terminal_statuses, verification_for_completed_cycles,
}
use nova_harness.Loop.Types.{
  LoopIterationRecord, RunningLoopContractEnvelope, completed, exhausted, loop_status_eq, running,
}

abbrev pub IsVerified : Option Text → Type 0
IsVerified none = ⊥
IsVerified (some t) = is_blank t ≡ false

result_iff : (r : Option Text) → (is_unverified r ≡ false) ↔ IsVerified r
unfolding is_unverified
result_iff none = ((λ h. cc), (λ v. absurd v))
result_iff (some t) = ((λ h. h), (λ v. v))

check_verified_iff :
    (c : LoopIterationRecord) → (check_verified c ≡ ok tt) ↔ IsVerified c.verification_result
unfolding check_verified
check_verified_iff c =
    let verified = result_iff c.verification_result in
    ((λ h. verified.0 (ground arith)), (λ v. ground (arith, verified.1 v)))

aligned_iff :
    (x : RunningLoopContractEnvelope)
    → (stop_reason_aligned_with_status x ≡ ok tt)
      ↔ (mem? x.status terminal_statuses ≡ is_some x.stop_reason)
unfolding stop_reason_aligned_with_status
aligned_iff x = ((λ h. ground arith), (λ e. ground arith))

active_iff :
    (x : RunningLoopContractEnvelope)
    → (active_loop_has_next_action x ≡ ok tt)
      ↔ (x.status ≡ running → is_blank x.memory.next_action ≡ false)
unfolding active_loop_has_next_action
active_iff x = ((λ h e. ground arith), (λ a. ground arith))

-- The loop has done its work, or spent its iterations, and asks for verification.
abbrev pub needs_verification : RunningLoopContractEnvelope → Bool
needs_verification x =
    (x.status == completed || x.status == exhausted) && x.plan.verification_required

cycles_iff :
    (x : RunningLoopContractEnvelope)
    → (verification_for_completed_cycles x ≡ ok tt)
      ↔ (needs_verification x ≡ true → All (λ c. IsVerified c.verification_result) x.cycles)
unfolding verification_for_completed_cycles
cycles_iff x =
    let every = check_every_means check_verified x.cycles check_verified_iff in
    elim (Bool-cases (needs_verification x)) [
      | inl e ↦ ((λ h _. every.0 (ground arith)), (λ a. ground (arith, every.1 (a e))))
      | inr e ↦ ((λ h claimed. absurd (cc (e, claimed))), (λ a. ground arith))
    ]

-- A loop is accepted exactly if its id and its objective are not blank, it has a reason to stop exactly
-- if its status is terminal, a running one has a next action, and where verification is required of one
-- that is completed or exhausted each cycle has a result; then only the two texts are stripped.
pub check_running_loop_iff :
    (x y : RunningLoopContractEnvelope)
    → (check_running_loop x ≡ ok y) ↔ (
        (is_blank x.envelope_id ≡ false)
        × (is_blank x.objective ≡ false)
        × (mem? x.status terminal_statuses ≡ is_some x.stop_reason)
        × (x.status ≡ running → is_blank x.memory.next_action ≡ false)
        × (needs_verification x ≡ true → All (λ c. IsVerified c.verification_result) x.cycles)
        × (y ≡ record x { envelope_id = strip x.envelope_id; objective = strip x.objective }))
unfolding check_running_loop
check_running_loop_iff x y =
    let id = solid_iff (codes "envelope_id") x.envelope_id y.envelope_id in
    let objective = solid_iff (codes "objective") x.objective y.objective in
    let aligned = aligned_iff x in
    let active = active_iff x in
    let cycles = cycles_iff x in
    (
      (λ h.
          let i = id.0 (ground arith) in
          let o = objective.0 (ground arith) in
          (
            i.0,
            o.0,
            aligned.0 (ground arith),
            active.0 (ground arith),
            cycles.0 (ground arith),
            ground (arith, i.1, o.1),
          )),
      (λ (i, o, a, n, c, same). ground (
        arith,
        id.1 (i, ap (λ z. z.envelope_id) same),
        objective.1 (o, ap (λ z. z.objective) same),
        aligned.1 a,
        active.1 n,
        cycles.1 c,
      )),
    )
