-- ===== src/Pipeline/Act.antt =====
-- Statements of `PipelineExecutor.run`: they may trigger the driver, call the outside world, add a
-- step, or raise. What was done before a raise stays done.
use nova_harness.Prelude.{Bool, List, Option, Result, Text, [], err, none, ok, some, ◌++◌, ◌∷◌}
use nova_harness.Driver.{StateDriver, TriggerError, trigger}
use nova_harness.Machine.{RunEvent}
use nova_harness.Pipeline.Outcome.{wrap}
use nova_harness.Pipeline.Types.{ExecutionStepResult, RunError, trigger_failed}

pub record State (V W : Type 0) : Type 0 where
  pub driver : StateDriver
  pub world : W
  pub step_results : List (ExecutionStepResult V)

abbrev pub Act : Type 0 → Type 0 → Type 0 → Type 0
Act V W A = State V W → Result RunError A × State V W

module _ {V W A : Type 0} where
  abbrev pub return : A → Act V W A
  return a s = (ok a, s)

  -- A model is built; its ValidationError escapes.
  abbrev pub build : {E : Type 0} → (E → RunError) → Result E A → Act V W A
  build wrap (ok a) s = (ok a, s)
  build wrap (err e) s = (err (wrap e), s)

module _ {V W A B : Type 0} where
  abbrev pub continue : Result RunError A → (A → Act V W B) → Act V W B
  continue (ok a) f s = f a s
  continue (err e) f s = (err e, s)

  infixl 5 ◌>>=◌ ◌>>◌
  abbrev pub ◌>>=◌ : Act V W A → (A → Act V W B) → Act V W B
  ◌>>=◌ m f s = let (r, s') = m s in continue r f s'

  abbrev pub ◌>>◌ : Act V W A → Act V W B → Act V W B
  m >> n = m >>= λ _. n

module _ {V W : Type 0} where
  -- `driver.trigger(event)` outside of a `try`.
  unfoldable pub fire : RunEvent → Option (List (Text × Bool)) → Act V W (Unit {0})
  fire event results s =
      let (r, d) = trigger s.driver event results in
      elim r [
        | ok _ ↦ (ok tt, record s { driver = d })
        | err e ↦ (err (trigger_failed e), record s { driver = d })
      ]

  -- `try: driver.trigger(event) except ValueError as e`: the error, if there was one.
  unfoldable pub try_fire : RunEvent → Act V W (Option TriggerError)
  try_fire event s =
      let (r, d) = trigger s.driver event none in
      elim r [
        | ok _ ↦ (ok none, record s { driver = d })
        | err e ↦ (ok (some e), record s { driver = d })
      ]

  -- The same with several triggers in the `try`: the first that raises ends it.
  unfoldable pub try_fire_all : List RunEvent → Act V W (Option TriggerError)
  unfolding try_fire
  try_fire_all [] s = (ok none, s)
  try_fire_all (event ∷ events) s =
      let (r, d) = trigger s.driver event none in
      let rest = try_fire_all events (record s { driver = d }) in
      elim r [ ok _ ↦ rest | err e ↦ (ok (some e), record s { driver = d }) ]

  -- `step_results.append(step)`
  unfoldable pub add_step : ExecutionStepResult V → Act V W (Unit {0})
  add_step step s = (ok tt, record s { step_results = s.step_results ++ step ∷ [] })
