-- ===== src/Pipeline/Reliable.antt =====
-- A pipeline whose tasks succeed, listed so that each comes after what it depends on, completes.
use distributed_data_science.Prelude.{
  ◌≡◌, refl, ◌∙◌, ◌⊎◌, inl, Bool, true, false, ◌||◌, some, String, List, [], ◌∷◌, arith, ◌=?◌,
  =?_iff, =?_refl, string_key, All, All-map, all_of,
}
use distributed_data_science.Prelude.Maps.{
  lookup, insert, has, Distinct, lookup-insert, has-insert, has-lookup, insert-Distinct,
}
use distributed_data_science.Pipeline.Task.{
  TaskStatus, pending, completed, TaskContext, returned, Host, PipelineTask, is_pending,
  is_completed, after_run, execute, can_execute,
}
use distributed_data_science.Pipeline.Orchestrator.{
  Statuses, Progress, is_failed, is_settled, all_settled, run_task, visit, pass, reset_statuses,
  start, reset_tasks,
}
use distributed_data_science.Pipeline.Dependencies.{AllDone}

abbrev pub listed : String → List String → Bool
listed id [] = false
listed id (x ∷ xs) = x =? id || listed id xs

-- The executor returns true, whatever its context and the state of the world.
abbrev pub IsReliable : {W : Type 0} → PipelineTask W → Type 0
IsReliable {W} t = (c : TaskContext) (w : W) → (t.executor c w).0 ≡ returned true

-- Each task depends on ids in `seen` or of earlier tasks only, and is reliable.
abbrev pub IsOrdered : {W : Type 0} → List String → List (PipelineTask W) → Type 0
IsOrdered seen [] = Unit
IsOrdered seen (t ∷ ts) =
    All (λ dep. listed dep seen ≡ true) t.dependencies
    × IsReliable t
    × IsOrdered (t.task_id ∷ seen) ts

abbrev pub mentioned : {W : Type 0} → String → List (PipelineTask W) → Bool
mentioned id [] = false
mentioned id (t ∷ ts) = t.task_id =? id || mentioned id ts

AllDone→all_of :
    (local : Statuses) (deps : List String)
    → AllDone local deps
    → all_of (λ dep. is_completed (lookup dep local)) deps ≡ true
unfolding is_completed
AllDone→all_of local [] h = refl
AllDone→all_of local (d ∷ deps) h = ground (arith, AllDone→all_of local deps h.1)

pub all_settled_lem :
    (m : Statuses)
    → Distinct m
    → ((k : String) (v : TaskStatus) → lookup k m ≡ some v → v ≡ completed)
    → all_settled m ≡ true
unfolding all_settled is_settled lookup
all_settled_lem [] d h = refl
all_settled_lem ((j, v) ∷ m) d h =
    let rest =
      all_settled_lem m d.1 (λ k u e. h k u (ground (arith, d.0, =?_iff j k, has-lookup j m))) in
    ground (arith, rest, h j v, =?_refl j)

module _ {W : Type 0} (host : Host W) (id : String) (parameters : List (String × String)) where
  visit_reliable :
      (t : PipelineTask W) (s : Progress W)
      → t.status ≡ pending
      → IsReliable t
      → AllDone s.local t.dependencies
      → let (t', s', _) = visit host id parameters t s in
        (s'.local ≡ insert t.task_id completed s.local)
        × (s'.failed_tasks ≡ s.failed_tasks)
        × (s'.success ≡ s.success)
        × (s'.error_summary ≡ s.error_summary)
  unfolding visit can_execute run_task execute after_run is_failed is_pending
  visit_reliable t s p r deps = ground (
    arith,
    AllDone→all_of s.local t.dependencies deps,
    r
        (record {
          task_id = t.task_id;
          pipeline_id = id;
          parameters = parameters;
          input_data = [];
          output_data = [];
          start_time = host.clock s.world;
          end_time = 0;
        })
        s.world,
  )

  -- The locals while such a pipeline runs, before the tasks `ts`.
  pub record Running (seen : List String) (ts : List (PipelineTask W)) (s : Progress W)
      : Type 0 where
    pub known : (d : String) → listed d seen ≡ true → lookup d s.local ≡ some completed
    pub distinct : Distinct s.local
    pub entries :
        (k : String) (v : TaskStatus)
        → lookup k s.local ≡ some v
        → (v ≡ completed) ⊎ ((v ≡ pending) × (mentioned k ts ≡ true))

  -- And once they have run.
  pub record Ran (s s' : Progress W) : Type 0 where
    pub distinct : Distinct s'.local
    pub entries : (k : String) (v : TaskStatus) → lookup k s'.local ≡ some v → v ≡ completed
    pub keys : (k : String) → has k s.local ≡ true → has k s'.local ≡ true
    pub failed_same : s'.failed_tasks ≡ s.failed_tasks
    pub success_same : s'.success ≡ s.success
    pub summary_same : s'.error_summary ≡ s.error_summary

  next_Running :
      (seen : List String) (t : PipelineTask W) (ts : List (PipelineTask W)) (s s' : Progress W)
      → s'.local ≡ insert t.task_id completed s.local
      → Running seen (t ∷ ts) s
      → Running (t.task_id ∷ seen) ts s'
  next_Running seen t ts s s' e r = record {
    known = λ d h.
        ground (arith, r.known d, =?_iff t.task_id d, lookup-insert t.task_id d completed s.local);
    distinct = rw e (insert-Distinct t.task_id completed s.local r.distinct);
    entries = λ k v h.
        ground
          (arith, r.entries k v, =?_iff t.task_id k, lookup-insert t.task_id k completed s.local);
  }

  pub pass_reliable :
      (seen : List String) (ts : List (PipelineTask W)) (s : Progress W)
      → IsOrdered seen ts
      → Running seen (reset_tasks ts) s
      → Ran s (pass host id parameters (reset_tasks ts) s).1
  unfolding pass reset_tasks
  pass_reliable seen [] s o r = record {
    distinct = r.distinct;
    entries = λ k v h. ground (arith, r.entries k v h);
    keys = λ k h. h;
    failed_same = refl;
    success_same = refl;
    summary_same = refl;
  }
  pass_reliable seen (t ∷ ts) s o r =
      let t₀ : PipelineTask W = record t { status = pending } in
      let s' = (visit host id parameters t₀ s).1 in
      let deps : AllDone s.local t.dependencies =
        All-map (λ dep. listed dep seen ≡ true) _ t.dependencies r.known o.0 in
      let (l, f, u, m) = visit_reliable t₀ s refl o.1 deps in
      let rest =
        pass_reliable (t.task_id ∷ seen) ts s' o.2
          (next_Running seen t₀ (reset_tasks ts) s s' l r) in
      record {
        distinct = rest.distinct;
        entries = rest.entries;
        keys = λ k h. rest.keys k (rw l (ground (arith, has-insert t.task_id k completed s.local)));
        failed_same = rest.failed_same ∙ f;
        success_same = rest.success_same ∙ u;
        summary_same = rest.summary_same ∙ m;
      }

module _ {W : Type 0} where
  reset-entries :
      (ts : List (PipelineTask W)) (local : Statuses) (k : String) (v : TaskStatus)
      → lookup k (reset_statuses ts local) ≡ some v
      → (lookup k local ≡ some v) ⊎ ((v ≡ pending) × (mentioned k (reset_tasks ts) ≡ true))
  unfolding reset_statuses reset_tasks
  reset-entries [] local k v h = inl h
  reset-entries (t ∷ ts) local k v h = ground (
    arith,
    reset-entries ts (insert t.task_id pending local) k v h,
    lookup-insert t.task_id k pending local,
  )

  reset-Distinct :
      (ts : List (PipelineTask W)) (local : Statuses)
      → Distinct local
      → Distinct (reset_statuses ts local)
  unfolding reset_statuses
  reset-Distinct [] local d = d
  reset-Distinct (t ∷ ts) local d = reset-Distinct ts _ (insert-Distinct t.task_id pending local d)

  reset-has :
      (ts : List (PipelineTask W)) (local : Statuses) (k : String)
      → has k local ≡ true
      → has k (reset_statuses ts local) ≡ true
  unfolding reset_statuses
  reset-has [] local k h = h
  reset-has (t ∷ ts) local k h =
      reset-has ts _ k (ground (arith, has-insert t.task_id k pending local))

  pub reset-has-All :
      (ts : List (PipelineTask W)) (local : Statuses)
      → All (λ t. has t.task_id (reset_statuses ts local) ≡ true) ts
  unfolding reset_statuses
  reset-has-All [] local = tt
  reset-has-All (t ∷ ts) local = (
    reset-has ts _ t.task_id
        (ground (arith, has-insert t.task_id t.task_id pending local, =?_refl t.task_id)),
    reset-has-All ts _,
  )

  pub start-Running :
      (host : Host W) (id : String) (parameters : List (String × String))
      (ts : List (PipelineTask W)) (w : W)
      → Running host id parameters [] (reset_tasks ts) (start ts w)
  unfolding start lookup
  start-Running host id parameters ts w = record {
    known = λ d h. ground arith;
    distinct = reset-Distinct ts [] tt;
    entries = λ k v h. ground (arith, reset-entries ts [] k v h);
  }
