-- ===== src/Pipeline/Completes.antt =====
-- `execute_pipeline` on a pipeline of reliable tasks in dependency order.
use distributed_data_science.Prelude.{
  ℕ, zero, suc, ◌*◌, ◌≡◌, refl, sym, subst, ◌<◌, true, some, String, List, [], ◌∷◌, arith,
  string_key, All, All-map, length, Option-cases, inl, inr,
}
use distributed_data_science.Prelude.Maps.{lookup, has, has-lookup}
use distributed_data_science.Pipeline.Task.{TaskStatus, completed, Host, PipelineTask}
use distributed_data_science.Pipeline.Orchestrator.{
  Statuses, DataOrchestrator, Progress, all_settled, pass, rounds, start, reset_tasks, run_tasks,
  execute_pipeline,
}
use distributed_data_science.Pipeline.Reliable.{
  IsOrdered, Ran, pass_reliable, start-Running, reset-has-All, all_settled_lem,
}

-- Every task of the list is reported completed.
abbrev pub IsAllCompleted : {W : Type 0} → Statuses → List (PipelineTask W) → Type 0
IsAllCompleted local ts = All (λ t. lookup t.task_id local ≡ some completed) ts

completed_entry :
    (m : Statuses) (k : String)
    → ((k : String) (v : TaskStatus) → lookup k m ≡ some v → v ≡ completed)
    → has k m ≡ true
    → lookup k m ≡ some completed
completed_entry m k h e = elim (Option-cases (lookup k m)) [
  | inl gone ↦ ground (arith, has-lookup k m)
  | inr (v, found) ↦ ground (arith, h k v found)
]

module _ {W : Type 0} (host : Host W) (id : String) (parameters : List (String × String)) where
  Ran-all :
      (ts : List (PipelineTask W)) (w : W) (s : Progress W)
      → Ran host id parameters (start ts w) s
      → IsAllCompleted s.local ts
  unfolding start
  Ran-all ts w s r =
      All-map _ _ ts (λ t h. completed_entry s.local t.task_id r.entries (r.keys t.task_id h))
        (reset-has-All ts [])

  rounds_settled :
      (n : ℕ) (ts : List (PipelineTask W)) (s : Progress W)
      → 0 < n
      → all_settled (pass host id parameters ts s).1.local ≡ true
      → (rounds host id parameters n ts s).1 ≡ (pass host id parameters ts s).1
  unfolding rounds
  rounds_settled zero ts s h e = absurd (omega arith)
  rounds_settled (suc left) ts s h e = rw (e, rounds)

  Completed : List (PipelineTask W) → Progress W → Type 0
  Completed ts s =
      (s.success ≡ true)
      × (s.failed_tasks ≡ [])
      × (s.error_summary ≡ "")
      × IsAllCompleted s.local ts

  run_tasks_completes :
      (ts : List (PipelineTask W)) (w : W)
      → IsOrdered [] ts
      → Completed ts (run_tasks host id parameters ts w).1
  unfolding run_tasks Completed
  run_tasks_completes [] w o = unfold start rounds reset_tasks in (refl, refl, refl, tt)
  run_tasks_completes (t ∷ ts) w o =
      let r =
        pass_reliable host id parameters [] (t ∷ ts) (start (t ∷ ts) w) o
          (start-Running host id parameters (t ∷ ts) w) in
      let settled = all_settled_lem _ r.distinct r.entries in
      subst (Completed (t ∷ ts))
        (sym (
          rounds_settled (length (t ∷ ts) * 2) (reset_tasks (t ∷ ts)) (start (t ∷ ts) w)
            (omega arith) settled))
        (r.success_same, r.failed_same, r.summary_same, Ran-all (t ∷ ts) w _ r)

  -- If each task of a pipeline succeeds whenever it is run, and depends only on tasks that stand
  -- before it, then the pipeline succeeds with no failed task and an empty summary, and every task
  -- is reported COMPLETED.
  pub execute_pipeline_completes :
      (o : DataOrchestrator W) (w : W) (ts : List (PipelineTask W))
      → lookup id o.pipelines ≡ some ts
      → IsOrdered [] ts
      → let result = (execute_pipeline host o id parameters w).0 in
        (result.success ≡ true)
        × (result.failed_tasks ≡ [])
        × (result.error_summary ≡ "")
        × IsAllCompleted result.task_results ts
  unfolding execute_pipeline Completed
  execute_pipeline_completes o w ts found h =
      rw (found, execute_pipeline) (run_tasks_completes ts w h)
