-- ===== src/Loop/Checks.antt =====
-- The validators of the parts of models/running_loop_contract.py.
use nova_harness.Prelude.{
  ModelError, Result, codes, ltb_ℤ, ok, out_of_range, pos, refuse, solid, ◌>>=◌, ◌>>◌,
}
use nova_harness.Loop.Types.{LoopExecutionPlan, LoopIterationRecord, LoopMemorySnapshot}

unfoldable pub check_loop_iteration_record :
    LoopIterationRecord → Result ModelError LoopIterationRecord
check_loop_iteration_record x = do
  refuse (ltb_ℤ x.iteration (pos 1)) (out_of_range (codes "iteration"))
  ok x

unfoldable pub check_loop_memory_snapshot :
    LoopMemorySnapshot → Result ModelError LoopMemorySnapshot
check_loop_memory_snapshot x = do
  current_objective ← solid (codes "current_objective") x.current_objective
  ok (record x { current_objective = current_objective })

unfoldable pub check_loop_execution_plan : LoopExecutionPlan → Result ModelError LoopExecutionPlan
check_loop_execution_plan x = do
  loop_id ← solid (codes "loop_id") x.loop_id
  refuse (ltb_ℤ x.max_iterations (pos 1)) (out_of_range (codes "max_iterations"))
  refuse (ltb_ℤ x.max_no_progress_iterations (pos 0))
      (out_of_range (codes "max_no_progress_iterations"))
  ok (record x { loop_id = loop_id })
