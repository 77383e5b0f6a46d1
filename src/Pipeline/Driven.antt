-- ===== src/Pipeline/Driven.antt =====
-- `PipelineExecutor.run` of harness/pipeline.py as a client of the state driver: what it does to the
-- driver is a sequence of `trigger` calls, whatever else happens and however the run ends.
use nova_harness.Prelude.{
  Bool, List, Option, Result, Text, [], ap, err, false, none, ok, refl, some, sym, true, ◌++◌, ◌∙◌,
  ◌∷◌, ◌≡◌,
}
use nova_harness.Driver.{StateDriver, TriggerError, trigger, trigger_all}
use nova_harness.Machine.{RunEvent, RunState}
use nova_harness.Pipeline.Act.{Act, State, add_step, build, continue, fire, try_fire, try_fire_all}
use nova_harness.Pipeline.Outcome.{wrap}
use nova_harness.Pipeline.Types.{ExecutionStepResult, RunError, trigger_failed}
use nova_harness.Safety.{SafetyAction, allow, block, require_approval}

-- The arguments of a call of `trigger`.
abbrev pub Call : Type 0
Call = RunEvent × Option (List (Text × Bool))

trigger_all-append :
    (d : StateDriver) (calls more : List Call)
    → trigger_all d (calls ++ more) ≡ trigger_all (trigger_all d calls) more
unfolding trigger_all
trigger_all-append d [] more = refl
trigger_all-append d (first ∷ calls) more =
    trigger_all-append (trigger d first.0 first.1).1 calls more

-- Sequences of calls lead from the first driver to the second.
abbrev pub Reaches : StateDriver → StateDriver → Type 0
Reaches d e = (calls : List Call) × (e ≡ trigger_all d calls)

pub no_calls : (d : StateDriver) → Reaches d d
no_calls d = ([], unfold trigger_all in refl)

pub one_call :
    (d : StateDriver) (event : RunEvent) (results : Option (List (Text × Bool)))
    → Reaches d (trigger d event results).1
one_call d event results = ((event, results) ∷ [], unfold trigger_all in refl)

pub more_calls : (d e f : StateDriver) → Reaches d e → Reaches e f → Reaches d f
more_calls d e f (calls, p) (more, q) =
    (calls ++ more, q ∙ ap (λ x. trigger_all x more) p ∙ sym (trigger_all-append d calls more))

-- A property of drivers that no call of `trigger` destroys.
abbrev pub IsKept : (StateDriver → Type 0) → Type 0
IsKept P =
    (d : StateDriver) (event : RunEvent) (results : Option (List (Text × Bool)))
    → P d
    → P (trigger d event results).1

pub Reaches-IsKept : (d : StateDriver) → IsKept (Reaches d)
Reaches-IsKept d e event results h =
    more_calls d e (trigger e event results).1 h (one_call e event results)

-- What a statement leaves: a driver as `P` says and, if it returns, a value as `Q` says.
pub record Left (P : StateDriver → Type 0) {V W A : Type 0} (Q : A → StateDriver → Type 0)
    (out : Result RunError A × State V W) : Type 0 where
  pub keeps : P out.1.driver
  pub gives : (a : A) → out.0 ≡ ok a → Q a out.1.driver

module _ (P : StateDriver → Type 0) {V W A : Type 0} (Q : A → StateDriver → Type 0) where
  pub after_raise : (e : RunError) (s : State V W) → P s.driver → Left P Q (err e, s)
  after_raise e s h = record { keeps = h; gives = λ a returned. cc }

  pub after_continue :
      {B : Type 0} (r : Result RunError B) (f : B → Act V W A) (s : State V W)
      → P s.driver
      → ((b : B) → Left P Q (f b s))
      → Left P Q (continue r f s)
  after_continue (ok b) f s h more = more b
  after_continue (err e) f s h more = after_raise e s h

  -- A branch leaves what all of its statements leave.
  pub either :
      (b : Bool) (m n : Act V W A) (s : State V W)
      → Left P Q (m s)
      → Left P Q (n s)
      → Left P Q ((elim b as (λ _. Act V W A) [ true ↦ m | false ↦ n ]) s)
  either true m n s x y = x
  either false m n s x y = y

  pub given :
      {B : Type 0} (o : Option B) (m : Act V W A) (f : B → Act V W A) (s : State V W)
      → Left P Q (m s)
      → ((b : B) → Left P Q (f b s))
      → Left P Q ((elim o as (λ _. Act V W A) [ none ↦ m | some b ↦ f b ]) s)
  given none m f s x y = x
  given (some b) m f s x y = y b

  pub acted :
      (action : SafetyAction) (m n k : Act V W A) (s : State V W)
      → Left P Q (m s)
      → Left P Q (n s)
      → Left P Q (k s)
      → Left P Q
          ((elim action as (λ _. Act V W A) [ block ↦ m | require_approval ↦ n | allow ↦ k ]) s)
  acted block m n k s x y z = x
  acted require_approval m n k s x y z = y
  acted allow m n k s x y z = z

-- The driver after the statements of `run` that are not calls.
module _ (P : StateDriver → Type 0) {V W : Type 0} where
  after_build :
      {A E : Type 0} (wrap : E → RunError) (r : Result E A) (s : State V W)
      → P s.driver
      → P (build wrap r s).1.driver
  after_build wrap (ok a) s h = h
  after_build wrap (err e) s h = h

  module _ (s : State V W) (d : StateDriver) (h : P d) where
    fired :
        (r : Result TriggerError RunState)
        → P
            (elim r as (λ _. Result RunError (Unit {0}) × State V W) [
              | ok _ ↦ (ok tt, record s { driver = d })
              | err e ↦ (err (trigger_failed e), record s { driver = d })
            ]).1.driver
    fired (ok u) = h
    fired (err e) = h

    tried :
        (rest : Result RunError (Option TriggerError) × State V W)
        → P rest.1.driver
        → (r : Result TriggerError RunState)
        → P
            (elim r as (λ _. Result RunError (Option TriggerError) × State V W) [
              | ok _ ↦ rest
              | err e ↦ (ok (some e), record s { driver = d })
            ]).1.driver
    tried rest more (ok u) = more
    tried rest more (err e) = h

module _ (P : StateDriver → Type 0) (kept : IsKept P) {V W : Type 0} where
  after_fire :
      (event : RunEvent) (results : Option (List (Text × Bool))) (s : State V W)
      → P s.driver
      → P (fire event results s).1.driver
  unfolding fire
  after_fire event results s h =
      let (r, d) = trigger s.driver event results in fired P s d (kept s.driver event results h) r

  after_try_fire : (event : RunEvent) (s : State V W) → P s.driver → P (try_fire event s).1.driver
  unfolding try_fire
  after_try_fire event s h =
      let (r, d) = trigger s.driver event none in
      let moved = kept s.driver event none h in
      tried P s d moved (ok none, record s { driver = d }) moved r

  after_try_fire_all :
      (events : List RunEvent) (s : State V W) → P s.driver → P (try_fire_all events s).1.driver
  unfolding try_fire_all
  after_try_fire_all [] s h = h
  after_try_fire_all (event ∷ events) s h =
      let (r, d) = trigger s.driver event none in
      let moved = kept s.driver event none h in
      let ih = after_try_fire_all events (record s { driver = d }) moved in
      tried P s d moved (try_fire_all events (record s { driver = d })) ih r

  -- A statement and those that follow it.
  module _ {A : Type 0} (Q : A → StateDriver → Type 0) where
    pub then_build :
        {B E : Type 0} (wrap : E → RunError) (r : Result E B) (f : B → Act V W A) (s : State V W)
        → P s.driver
        → ((b : B) (s' : State V W) → P s'.driver → Left P Q (f b s'))
        → Left P Q (continue (build wrap r s).0 f (build wrap r s).1)
    then_build wrap r f s h more =
        let (out, s') = build wrap r s in
        let left = after_build P wrap r s h in
        after_continue P Q out f s' left (λ b. more b s' left)

    pub then_fire :
        (event : RunEvent) (results : Option (List (Text × Bool))) (f : Unit {0} → Act V W A)
        (s : State V W)
        → P s.driver
        → ((s' : State V W) → P s'.driver → Left P Q (f tt s'))
        → Left P Q (continue (fire event results s).0 f (fire event results s).1)
    then_fire event results f s h more =
        let (out, s') = fire event results s in
        let left = after_fire event results s h in
        after_continue P Q out f s' left (λ _. more s' left)

    pub then_try_fire :
        (event : RunEvent) (f : Option TriggerError → Act V W A) (s : State V W)
        → P s.driver
        → ((caught : Option TriggerError) (s' : State V W) → P s'.driver → Left P Q (f caught s'))
        → Left P Q (continue (try_fire event s).0 f (try_fire event s).1)
    then_try_fire event f s h more =
        let (out, s') = try_fire event s in
        let left = after_try_fire event s h in
        after_continue P Q out f s' left (λ caught. more caught s' left)

    pub then_try_fire_all :
        (events : List RunEvent) (f : Option TriggerError → Act V W A) (s : State V W)
        → P s.driver
        → ((caught : Option TriggerError) (s' : State V W) → P s'.driver → Left P Q (f caught s'))
        → Left P Q (continue (try_fire_all events s).0 f (try_fire_all events s).1)
    then_try_fire_all events f s h more =
        let (out, s') = try_fire_all events s in
        let left = after_try_fire_all events s h in
        after_continue P Q out f s' left (λ caught. more caught s' left)

    pub then_add_step :
        (step : ExecutionStepResult V) (f : Unit {0} → Act V W A) (s : State V W)
        → P s.driver
        → ((s' : State V W) → P s'.driver → Left P Q (f tt s'))
        → Left P Q (continue (add_step step s).0 f (add_step step s).1)
    unfolding add_step
    then_add_step step f s h more = more (record s { step_results = s.step_results ++ step ∷ [] }) h
