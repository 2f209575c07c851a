-- ===== src/Pipeline/Retries.antt =====
-- How often a task is run, and a pipeline that is given up with `success`.
use distributed_data_science.Prelude.{
  ℕ, zero, suc, ◌+◌, ◌≤◌, ◌<◌, ◌≡◌, refl, ap, ◌∙◌, sym, ◌||◌, true, false, some, String, List, [],
  ◌∷◌, arith, string_key, =?_refl,
}
use distributed_data_science.Prelude.Maps.{lookup, insert}
use distributed_data_science.Pipeline.Task.{
  pending, failed, TaskContext, returned, Host, PipelineTask, is_pending, after_run, execute,
  can_execute,
}
use distributed_data_science.Pipeline.Orchestrator.{
  DataOrchestrator, Progress, is_failed, is_settled, all_settled, run_task, visit, pass, rounds,
  reset_statuses, start, reset_tasks, run_tasks, execute_pipeline,
}

-- The executor returns false, whatever its context and the state of the world.
abbrev pub Refuses : {W : Type 0} → PipelineTask W → Type 0
Refuses {W} t = (c : TaskContext) (w : W) → (t.executor c w).0 ≡ returned false

-- A task executed again and again, each time with a fresh context, as the rounds of a pipeline do.
pub execute_times :
    {W : Type 0} → Host W → ℕ → PipelineTask W → TaskContext → W → PipelineTask W × W
execute_times host zero t c w = (t, w)
execute_times host (suc n) t c w =
    let (_, t', _, w') = execute host t c w in execute_times host n t' c w'

module _ {W : Type 0} (host : Host W) where
  execute_refused :
      (t : PipelineTask W) (c : TaskContext) (w : W)
      → Refuses t
      → let t' = (execute host t c w).1 in
        (t'.executor ≡ t.executor)
        × (t'.max_retries ≡ t.max_retries)
        × (t.retry_count < t.max_retries
            → (t'.status ≡ pending) × (t'.retry_count ≡ t.retry_count + 1))
        × (t.max_retries ≤ t.retry_count → (t'.status ≡ failed) × (t'.retry_count ≡ t.retry_count))
  unfolding execute after_run
  execute_refused t c w r =
      ground (arith, r (record c { task_id = t.task_id; start_time = host.clock w }) w)

  Refuses-same : (t t' : PipelineTask W) → t'.executor ≡ t.executor → Refuses t → Refuses t'
  Refuses-same t t' e r c w = rw e (r c w)

  -- A task whose executor always returns false is tried again until its retries are used up: it is
  -- PENDING after each of the runs that leave a retry, and FAILED after exactly
  -- `max_retries - retry_count + 1` runs.
  pub execute_times_refused :
      (n : ℕ) (t : PipelineTask W) (c : TaskContext) (w : W)
      → Refuses t
      → (t.retry_count + suc n ≤ t.max_retries
          → (execute_times host (suc n) t c w).0.status ≡ pending)
        × (t.retry_count + n ≡ t.max_retries → (execute_times host (suc n) t c w).0.status ≡ failed)
  unfolding execute_times
  execute_times_refused zero t c w r = ground (arith, execute_refused t c w r)
  execute_times_refused (suc n) t c w r =
      let (_, t', _, w') = execute host t c w in
      let facts = execute_refused t c w r in
      ground (arith, facts, execute_times_refused n t' c w' (Refuses-same t t' facts.0 r))

  module _ (id : String) (parameters : List (String × String)) where
    visit_refused :
        (t : PipelineTask W) (s : Progress W)
        → Refuses t
        → t.status ≡ pending
        → t.dependencies ≡ []
        → t.retry_count < t.max_retries
        → let (t', s', ran) = visit host id parameters t s in
          (ran ≡ true)
          × (t' ≡ record t { retry_count = t.retry_count + 1; status = pending })
          × (s'.local ≡ insert t.task_id pending s.local)
          × (s'.failed_tasks ≡ s.failed_tasks)
          × (s'.success ≡ s.success)
          × (s'.error_summary ≡ s.error_summary)
    unfolding visit can_execute run_task execute after_run is_failed is_pending
    visit_refused t s r p d h = ground (
      arith,
      r
          (record {
            task_id = t.task_id;
            pipeline_id = id;
            parameters = parameters;
            input_data = [];
            output_data = [];
            start_time = host.clock s.world;
            end_time = 0;
          })
          s.world,
    )

    pass_single :
        (t : PipelineTask W) (s : Progress W)
        → pass host id parameters (t ∷ []) s
          ≡ (let (t', s', ran) = visit host id parameters t s in (t' ∷ [], s', ran || false))
    unfolding pass
    pass_single t s = refl

    rounds_moved :
        (n : ℕ) (ts ts' : List (PipelineTask W)) (s s' : Progress W)
        → pass host id parameters ts s ≡ (ts', s', true)
        → all_settled s'.local ≡ false
        → rounds host id parameters (suc n) ts s ≡ rounds host id parameters n ts' s'
    unfolding rounds
    rounds_moved n ts ts' s s' p a = rw (p, a) refl

    rounds_refused :
        (n : ℕ) (t : PipelineTask W) (s : Progress W)
        → Refuses t
        → t.status ≡ pending
        → t.dependencies ≡ []
        → t.retry_count + n ≤ t.max_retries
        → s.local ≡ (t.task_id, pending) ∷ []
        → let s' = (rounds host id parameters n (t ∷ []) s).1 in
          (s'.local ≡ (t.task_id, pending) ∷ [])
          × (s'.failed_tasks ≡ s.failed_tasks)
          × (s'.success ≡ s.success)
          × (s'.error_summary ≡ s.error_summary)
    unfolding rounds
    rounds_refused zero t s r p d h l = (l, refl, refl, refl)
    rounds_refused (suc n) t s r p d h l =
        let (t', s', ran) = visit host id parameters t s in
        let (moved, e, k, f, u, m) = visit_refused t s r p d (omega arith) in
        let same : s'.local ≡ (t.task_id, pending) ∷ [] =
          k ∙ unfold insert in ground (arith, =?_refl t.task_id) in
        let waits : all_settled s'.local ≡ false =
          rw same (unfold all_settled is_settled in refl) in
        let once : pass host id parameters (t ∷ []) s ≡ (t' ∷ [], s', true) =
          pass_single t s ∙ ap (λ b. (t' ∷ [], s', b || false)) moved in
        let name = ap (λ (x : PipelineTask W). x.task_id) e in
        let more =
          rounds_refused n t' s' (Refuses-same t t' (ap (λ (x : PipelineTask W). x.executor) e) r)
            (ap (λ (x : PipelineTask W). x.status) e)
            (ap (λ (x : PipelineTask W). x.dependencies) e ∙ d)
            (omega (
              arith,
              ap (λ (x : PipelineTask W). x.retry_count) e,
              ap (λ (x : PipelineTask W). x.max_retries) e,
            ))
            (same ∙ ap (λ i. (i, pending) ∷ []) (sym name)) in
        rw (rounds_moved n (t ∷ []) (t' ∷ []) s s' once waits)
          (more.0 ∙ ap (λ i. (i, pending) ∷ []) name, more.1 ∙ f, more.2 ∙ u, more.3 ∙ m)

  -- A pipeline of one task that needs no other, whose executor only ever returns false and which has
  -- at least two retries left, is reported as a success: two rounds of the loop are all that there
  -- are, both leave the task PENDING, and no failure is noted.
  pub execute_pipeline_unfinished :
      (o : DataOrchestrator W) (id : String) (parameters : List (String × String)) (w : W)
      → (t : PipelineTask W) → lookup id o.pipelines ≡ some (t ∷ [])
      → Refuses t
      → t.dependencies ≡ []
      → t.retry_count + 2 ≤ t.max_retries
      → let result = (execute_pipeline host o id parameters w).0 in
        (result.success ≡ true)
        × (result.task_results ≡ (t.task_id, pending) ∷ [])
        × (result.failed_tasks ≡ [])
        × (result.error_summary ≡ "")
  unfolding execute_pipeline run_tasks start reset_tasks reset_statuses insert
  execute_pipeline_unfinished o id parameters w t e r d h =
      let (l, f, u, m) =
        rounds_refused id parameters 2 (record t { status = pending }) (start (t ∷ []) w) r refl d h
          refl in
      rw (e, execute_pipeline) (u, l, f, m)
