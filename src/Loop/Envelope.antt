-- ===== src/Loop/Envelope.antt =====
-- `RunningLoopContractEnvelope` of models/running_loop_contract.py and its validators.
-- `TERMINAL_STATUSES`
use nova_harness.Prelude.{
  Bool, List, ModelError, Option, Result, Text, [], check_every, codes, if◌then◌else◌, is_blank,
  is_some, mem?, nat_eq, none, not, ok, refuse, refused_by, solid, some, text_eq, true, ◌&&◌, ◌==◌,
  ◌>>=◌, ◌>>◌, ◌||◌, ◌∷◌,
}
use nova_harness.Loop.Types.{
  LoopIterationRecord, LoopStatus, RunningLoopContractEnvelope, completed, exhausted, failed,
  loop_status_eq, running,
}

abbrev pub terminal_statuses : List LoopStatus
terminal_statuses = completed ∷ exhausted ∷ failed ∷ []

unfoldable pub stop_reason_aligned_with_status :
    RunningLoopContractEnvelope → Result ModelError (Unit {0})
stop_reason_aligned_with_status x = do
  refuse (mem? x.status terminal_statuses && not (is_some x.stop_reason))
      (refused_by (codes "terminal_status_requires_stop_reason"))
  refuse (is_some x.stop_reason && not (mem? x.status terminal_statuses))
      (refused_by (codes "stop_reason_requires_terminal_status"))

unfoldable pub active_loop_has_next_action :
    RunningLoopContractEnvelope → Result ModelError (Unit {0})
active_loop_has_next_action x =
    refuse (x.status == running && is_blank x.memory.next_action)
      (refused_by (codes "active_loop_has_next_action"))

-- `c.verification_result is None or c.verification_result.strip() == ""`
unfoldable pub is_unverified : Option Text → Bool
is_unverified none = true
is_unverified (some t) = is_blank t

unfoldable pub check_verified : LoopIterationRecord → Result ModelError (Unit {0})
check_verified c =
    refuse (is_unverified c.verification_result)
      (refused_by (codes "verification_for_completed_cycles"))

unfoldable pub verification_for_completed_cycles :
    RunningLoopContractEnvelope → Result ModelError (Unit {0})
verification_for_completed_cycles x =
    if (x.status == completed || x.status == exhausted) && x.plan.verification_required
    then check_every check_verified x.cycles
    else ok tt

-- The construction of an envelope from parts that have been validated. `enforce_max_iterations` and
-- `repeated_no_progress_enforced` refuse nothing.
unfoldable pub check_running_loop :
    RunningLoopContractEnvelope → Result ModelError RunningLoopContractEnvelope
check_running_loop x = do
  envelope_id ← solid (codes "envelope_id") x.envelope_id
  objective ← solid (codes "objective") x.objective
  stop_reason_aligned_with_status x
  active_loop_has_next_action x
  verification_for_completed_cycles x
  ok (record x { envelope_id = envelope_id; objective = objective })
