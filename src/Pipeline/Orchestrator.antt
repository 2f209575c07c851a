-- ===== src/Pipeline/Orchestrator.antt =====
-- `DataOrchestrator`: the pipelines, and `execute_pipeline` with its two loops.
use distributed_data_science.Prelude.{
  ℕ, zero, suc, ◌-◌, ◌*◌, ◌/◌, Bool, true, false, not, ◌&&◌, ◌||◌, none, some, String, List, [],
  ◌∷◌, ◌++◌, map, if◌then◌else◌, string_key, length, all_of, concat,
}
use distributed_data_science.Prelude.Maps.{lookup, insert, has}
use distributed_data_science.Pipeline.Task.{
  TaskStatus, pending, running, failed, TaskContext, Host, PipelineTask, execute, can_execute,
}

abbrev pub Statuses : Type 0
Statuses = List (String × TaskStatus)

pub record PipelineResult : Type 0 where
  pub pipeline_id : String
  pub success : Bool
  pub total_duration : ℕ
  pub task_results : Statuses
  pub failed_tasks : List String
  pub error_summary : String

pub record DataOrchestrator (W : Type 0) : Type 0 where
  pub pipelines : List (String × List (PipelineTask W))
  pub task_statuses : Statuses
  pub execution_history : List (String × PipelineResult)

-- The locals of `execute_pipeline` that its loops change.
pub record Progress (W : Type 0) : Type 0 where
  pub local : Statuses
  pub failed_tasks : List String
  pub success : Bool
  pub error_summary : String
  pub world : W

unfoldable pub is_failed : TaskStatus → Bool
is_failed failed = true
is_failed _ = false

unfoldable pub is_settled : TaskStatus → Bool
is_settled pending = false
is_settled running = false
is_settled _ = true

unfoldable pub all_settled : Statuses → Bool
unfolding is_settled
all_settled local = all_of (λ entry. is_settled entry.1) local

-- `std::map::insert` of a range: a key that is there keeps its value.
unfoldable pub insert_new : Statuses → Statuses → Statuses
insert_new [] m = m
insert_new ((k, v) ∷ local) m = insert_new local (if has k m then m else insert k v m)

module _ {W : Type 0} where
  -- `local_task_statuses[task->get_id()] = PENDING` for every task.
  unfoldable pub reset_statuses : List (PipelineTask W) → Statuses → Statuses
  reset_statuses [] local = local
  reset_statuses (t ∷ ts) local = reset_statuses ts (insert t.task_id pending local)

  unfoldable pub start : List (PipelineTask W) → W → Progress W
  unfolding reset_statuses
  start ts w = record {
    local = reset_statuses ts [];
    failed_tasks = [];
    success = true;
    error_summary = "";
    world = w;
  }

  unfoldable pub reset_tasks : List (PipelineTask W) → List (PipelineTask W)
  reset_tasks [] = []
  reset_tasks (t ∷ ts) = record t { status = pending } ∷ reset_tasks ts

module _ {W : Type 0} (host : Host W) where
  -- The body of the `for` over the tasks, for a task that can run.
  unfoldable pub run_task :
      String → List (String × String) → PipelineTask W → Progress W → PipelineTask W × Progress W
  unfolding execute is_failed
  run_task pipeline_id parameters t s =
      let context : TaskContext = record {
        task_id = "";
        pipeline_id = pipeline_id;
        parameters = parameters;
        input_data = [];
        output_data = [];
        start_time = 0;
        end_time = 0;
      } in
      let (success, t', _, w') = execute host t context s.world in
      let s' = record s { local = insert t.task_id t'.status s.local; world = w' } in
      if not success && is_failed t'.status
      then (t', record s' { failed_tasks = s.failed_tasks ++ t.task_id ∷ []; success = false })
      else (t', s')

  -- One step of the `for`: also whether the task was run.
  unfoldable pub visit :
      String
      → List (String × String)
      → PipelineTask W
      → Progress W
      → PipelineTask W × Progress W × Bool
  visit pipeline_id parameters t s =
      if can_execute t s.local
      then (let (t', s') = run_task pipeline_id parameters t s in (t', s', true))
      else (t, s, false)

  -- One round of the `while`: the tasks, the locals, and `progress_made`.
  unfoldable pub pass :
      String
      → List (String × String)
      → List (PipelineTask W)
      → Progress W
      → List (PipelineTask W) × Progress W × Bool
  pass pipeline_id parameters [] s = ([], s, false)
  pass pipeline_id parameters (t ∷ ts) s =
      let (t', s', ran) = visit pipeline_id parameters t s in
      let (ts', s'', progress) = pass pipeline_id parameters ts s' in
      (t' ∷ ts', s'', ran || progress)

  -- The `while`, with the rounds that `max_iterations` leaves.
  unfoldable pub rounds :
      String
      → List (String × String)
      → ℕ
      → List (PipelineTask W)
      → Progress W
      → List (PipelineTask W) × Progress W
  unfolding all_settled
  rounds pipeline_id parameters zero ts s = (ts, s)
  rounds pipeline_id parameters (suc left) ts s =
      let (ts', s', progress) = pass pipeline_id parameters ts s in
      let more = rounds pipeline_id parameters left ts' s' in
      if all_settled s'.local then (ts', s') else if progress then more else (
        ts',
        record s' {
          success = false;
          error_summary = "Pipeline execution stalled - possible circular dependencies";
        },
      )

  unfoldable pub run_tasks :
      String
      → List (String × String)
      → List (PipelineTask W)
      → W
      → List (PipelineTask W) × Progress W
  unfolding start reset_tasks rounds
  run_tasks pipeline_id parameters ts w =
      rounds pipeline_id parameters (length ts * 2) (reset_tasks ts) (start ts w)

  -- The clock counts microseconds.
  unfoldable pub execute_pipeline :
      DataOrchestrator W
      → String
      → List (String × String)
      → W
      → PipelineResult × DataOrchestrator W × W
  unfolding run_tasks insert_new
  execute_pipeline o pipeline_id parameters w = elim (lookup pipeline_id o.pipelines) [
    | none ↦ (
      record {
        pipeline_id = pipeline_id;
        success = false;
        total_duration = 0;
        task_results = [];
        failed_tasks = [];
        error_summary = concat "Pipeline not found: " pipeline_id;
      },
      o,
      w,
    )
    | some ts ↦
        let (ts', s) = run_tasks pipeline_id parameters ts w in
        let result : PipelineResult = record {
          pipeline_id = pipeline_id;
          success = s.success;
          total_duration = (host.clock s.world - host.clock w) / 1000;
          task_results = s.local;
          failed_tasks = s.failed_tasks;
          error_summary = s.error_summary;
        } in
        (
          result,
          record {
            pipelines = insert pipeline_id ts' o.pipelines;
            task_statuses = insert_new s.local o.task_statuses;
            execution_history = insert pipeline_id result o.execution_history;
          },
          s.world,
        )
  ]

module _ {W : Type 0} where
  unfoldable pub create_pipeline : DataOrchestrator W → String → DataOrchestrator W
  create_pipeline o id = record o { pipelines = insert id [] o.pipelines }

  unfoldable pub add_task_to_pipeline :
      DataOrchestrator W → String → PipelineTask W → DataOrchestrator W
  add_task_to_pipeline o id t = elim (lookup id o.pipelines) [
    | none ↦ o
    | some ts ↦ record o { pipelines = insert id (ts ++ t ∷ []) o.pipelines }
  ]

  unfoldable pub get_pipeline_list : DataOrchestrator W → List String
  get_pipeline_list o = map (λ p. p.0) o.pipelines
