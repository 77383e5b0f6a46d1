-- ===== src/Trace/Shape.antt =====
-- What the validators of `RunTrace` in models/observability_trace.py ask of a trace.
use nova_harness.Prelude.{
  List, Option, [], ap, arith, false, is_blank, is_nil, length, none, ok, refl, required,
  required-ok, required_solid, some, strip, suc, sym, ℕ, ◌&&◌, ◌↔◌, ◌∙◌, ◌∷◌, ◌≡◌, ◌≢◌,
}
use nova_harness.Trace.{
  RunTrace, StepTrace, TraceSummary, check_indexes, check_run_trace, is_terminal_status, no_stamp,
  skipped, summary_steps_match, trace_run_id_empty, trace_task_id_empty,
}

-- The indexes count up from `i`.
abbrev pub Counts : ℕ → List StepTrace → Type 0
Counts i [] = Unit
Counts i (step ∷ steps) = (step.step_index ≡ i) × Counts (suc i) steps

pub check_indexes_sound :
    (i : ℕ) (steps : List StepTrace) → check_indexes i steps ≡ ok tt → Counts i steps
unfolding check_indexes
check_indexes_sound i [] h = tt
check_indexes_sound i (step ∷ steps) h =
    (ground arith, check_indexes_sound (suc i) steps (ground arith))

pub check_indexes_complete :
    (i : ℕ) (steps : List StepTrace) → Counts i steps → check_indexes i steps ≡ ok tt
unfolding check_indexes
check_indexes_complete i [] h = refl
check_indexes_complete i (step ∷ steps) h = ground (arith, check_indexes_complete (suc i) steps h.1)

-- A summary, if there is one, counts the steps.
abbrev pub CountsSteps : Option TraceSummary → List StepTrace → Type 0
CountsSteps none steps = Unit
CountsSteps (some summary) steps = summary.total_steps ≡ length steps

counts_steps : (r : RunTrace) → (summary_steps_match r ≡ ok tt) ↔ CountsSteps r.summary r.steps
unfolding summary_steps_match
counts_steps r = by_summary r r.summary refl
  where
    by_summary :
        (r : RunTrace) (o : Option TraceSummary)
        → r.summary ≡ o
        → (summary_steps_match r ≡ ok tt) ↔ CountsSteps r.summary r.steps
    by_summary r none e = rw e ((λ h. tt), (λ h. ground arith))
    by_summary r (some s) e = rw e ((λ h. ground arith), (λ h. ground arith))

-- What the model validators of a run trace require, beside the ids.
pub record IsShaped (r : RunTrace) : Type 0 where
  pub some_step : r.steps ≢ []
  pub numbered : Counts 0 r.steps
  pub finished : r.terminal_status ≢ skipped → no_stamp r.finished_at ≡ false
  pub summed : CountsSteps r.summary r.steps

trace_parts :
    (r : RunTrace) {r' : RunTrace}
    → check_run_trace r ≡ ok r'
    → (r' ≡ record r { run_id = r'.run_id; task_id = r'.task_id })
      × (required trace_run_id_empty r.run_id ≡ ok r'.run_id)
      × (required trace_task_id_empty r.task_id ≡ ok r'.task_id)
      × (is_nil r.steps ≡ false)
      × (check_indexes 0 r.steps ≡ ok tt)
      × (is_terminal_status r.terminal_status && no_stamp r.finished_at ≡ false)
      × (summary_steps_match r ≡ ok tt)
unfolding check_run_trace
trace_parts r h = ground arith

pub check_run_trace_iff :
    (r r' : RunTrace)
    → (check_run_trace r ≡ ok r') ↔ (
        (is_blank r.run_id ≡ false)
        × (is_blank r.task_id ≡ false)
        × IsShaped r
        × (r' ≡ record r { run_id = strip r.run_id; task_id = strip r.task_id }))
unfolding check_run_trace is_terminal_status
check_run_trace_iff r r' = (
  (λ h.
      let (same, run, task, steps, indexes, ends, summary) = trace_parts r h in
      let (run_solid, run_stripped) = required-ok trace_run_id_empty r.run_id run in
      let (task_solid, task_stripped) = required-ok trace_task_id_empty r.task_id task in
      (
        run_solid,
        task_solid,
        shape steps indexes ends summary,
        cc (same, run_stripped, task_stripped),
      )),
  (λ (run_solid, task_solid, shaped, same).
      trace_of run_solid task_solid shaped ∙ ap ok (sym same)),
)
  where
    shape :
        is_nil r.steps ≡ false
        → check_indexes 0 r.steps ≡ ok tt
        → is_terminal_status r.terminal_status && no_stamp r.finished_at ≡ false
        → summary_steps_match r ≡ ok tt
        → IsShaped r
    shape steps indexes ends summary = record {
      some_step = λ e. ground arith;
      numbered = check_indexes_sound 0 r.steps indexes;
      finished = λ n. ground arith;
      summed = (counts_steps r).0 summary;
    }

    trace_of :
        is_blank r.run_id ≡ false
        → is_blank r.task_id ≡ false
        → IsShaped r
        → check_run_trace r ≡ ok (record r { run_id = strip r.run_id; task_id = strip r.task_id })
    trace_of run_solid task_solid shaped = ground (
      arith,
      required_solid trace_run_id_empty r.run_id run_solid,
      required_solid trace_task_id_empty r.task_id task_solid,
      check_indexes_complete 0 r.steps shaped.numbered,
      (counts_steps r).1 shaped.summed,
    )
