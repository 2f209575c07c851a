-- ===== src/Pipeline/Outcomes.antt =====
-- What `execute_pipeline` reports: dependencies, failures, and when its `success` is worth something.
use distributed_data_science.Prelude.{
  ◌*◌, ◌≡◌, refl, Bool, true, false, none, some, String, List, [], ◌∷◌, arith, string_key, ◌⊎◌, All,
  length, is_empty,
}
use distributed_data_science.Prelude.Maps.{lookup, insert, lookup-insert, lookup-insert_self}
use distributed_data_science.Pipeline.Task.{pending, Host, PipelineTask, is_pending}
use distributed_data_science.Pipeline.Orchestrator.{
  Statuses, DataOrchestrator, Progress, reset_statuses, start, reset_tasks, run_tasks,
  execute_pipeline,
}
use distributed_data_science.Pipeline.Dependencies.{
  Absent, DistinctIds, Synced, IsGrounded, rounds-Passed,
}

module _ {W : Type 0} where
  reset-Absent :
      (id : String) (ts : List (PipelineTask W)) → Absent id ts → Absent id (reset_tasks ts)
  unfolding reset_tasks
  reset-Absent id [] a = tt
  reset-Absent id (t ∷ ts) a = (a.0, reset-Absent id ts a.1)

  reset-DistinctIds : (ts : List (PipelineTask W)) → DistinctIds ts → DistinctIds (reset_tasks ts)
  unfolding reset_tasks
  reset-DistinctIds [] d = tt
  reset-DistinctIds (t ∷ ts) d = (reset-Absent t.task_id ts d.0, reset-DistinctIds ts d.1)

  stays_pending :
      (id : String) (ts : List (PipelineTask W)) (local : Statuses)
      → lookup id local ≡ some pending
      → lookup id (reset_statuses ts local) ≡ some pending
  unfolding reset_statuses
  stays_pending id [] local h = h
  stays_pending id (t ∷ ts) local h =
      stays_pending id ts _ (ground (arith, lookup-insert t.task_id id pending local))

  reset-Synced :
      (ts : List (PipelineTask W)) (local : Statuses)
      → All (Synced (reset_statuses ts local)) (reset_tasks ts)
  unfolding reset_statuses reset_tasks
  reset-Synced [] local = tt
  reset-Synced (t ∷ ts) local = (
    stays_pending t.task_id ts _ (lookup-insert_self t.task_id pending local),
    reset-Synced ts (insert t.task_id pending local),
  )

  reset-IsGrounded :
      (local : Statuses) (ts : List (PipelineTask W)) → All (IsGrounded local) (reset_tasks ts)
  unfolding reset_tasks is_pending
  reset-IsGrounded local [] = tt
  reset-IsGrounded local (t ∷ ts) = (λ e. ground arith, reset-IsGrounded local ts)

  run_tasks-Passed :
      (host : Host W) (id : String) (parameters : List (String × String))
      (ts : List (PipelineTask W)) (w : W)
      → DistinctIds ts
      → let (us, s) = run_tasks host id parameters ts w in
        All (Synced s.local) us × All (IsGrounded s.local) us
  unfolding run_tasks start
  run_tasks-Passed host id parameters ts w d =
      let p =
        rounds-Passed host id parameters (length ts * 2) (reset_tasks ts) (start ts w)
          (reset-DistinctIds ts d) (reset-Synced ts []) in
      (p.synced, p.grounded (reset-IsGrounded (start ts w).local ts))

  -- Executing a pipeline of tasks with different ids leaves its tasks with the statuses that the
  -- result reports, and a task that is reported other than PENDING (so one that was run) has all
  -- the tasks that it depends on reported COMPLETED.
  pub execute_pipeline-IsGrounded :
      (host : Host W) (o : DataOrchestrator W) (id : String) (parameters : List (String × String))
      (w : W) (ts : List (PipelineTask W))
      → lookup id o.pipelines ≡ some ts
      → DistinctIds ts
      → let (result, o', _) = execute_pipeline host o id parameters w in
        (us : List (PipelineTask W)) × (lookup id o'.pipelines ≡ some us)
        × All (Synced result.task_results) us
        × All (IsGrounded result.task_results) us
  unfolding execute_pipeline
  execute_pipeline-IsGrounded host o id parameters w ts found d =
      let (us, s) = run_tasks host id parameters ts w in
      let (synced, grounded) = run_tasks-Passed host id parameters ts w d in
      rw (found, execute_pipeline) (us, lookup-insert_self id us o.pipelines, synced, grounded)

  -- A pipeline that is not there: an error, and nothing is changed or run.
  pub execute_pipeline_missing :
      (host : Host W) (o : DataOrchestrator W) (id : String) (parameters : List (String × String))
      (w : W)
      → lookup id o.pipelines ≡ none
      → let (result, o', w') = execute_pipeline host o id parameters w in
        (result.success ≡ false) × (result.task_results ≡ []) × (o' ≡ o) × (w' ≡ w)
  unfolding execute_pipeline
  execute_pipeline_missing host o id parameters w missing =
      rw (missing, execute_pipeline) (refl, refl, refl, refl)

-- `success` against the list of failed tasks and the summary.
pub record Reports (success : Bool) (failed_tasks : List String) (error_summary : String)
    : Type 0 where
  pub clean : success ≡ true → (failed_tasks ≡ []) × (error_summary ≡ "")
  pub blamed :
      success ≡ false
      → (is_empty failed_tasks ≡ false)
        ⊎ (error_summary ≡ "Pipeline execution stalled - possible circular dependencies")

module _ {W : Type 0} (host : Host W) (id : String) (parameters : List (String × String)) where
  -- What holds of the locals before the last round.
  record Tallies (s : Progress W) : Type 0 where
    tally : s.success ≡ is_empty s.failed_tasks
    no_summary : s.error_summary ≡ ""
