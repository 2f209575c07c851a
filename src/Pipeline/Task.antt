-- ===== src/Pipeline/Task.antt =====
-- `TaskStatus`, `TaskContext` and `PipelineTask`.
use distributed_data_science.Prelude.{
  ℕ, ◌+◌, Bool, true, false, ◌&&◌, Option, some, String, List, [], ltb, if◌then◌else◌, string_key,
  all_of, concat,
}
use distributed_data_science.Prelude.Maps.{lookup}

pub data TaskStatus : Type 0 where
  pending running completed failed skipped cancelled : TaskStatus

pub record TaskContext : Type 0 where
  pub task_id : String
  pub pipeline_id : String
  pub parameters : List (String × String)
  pub input_data : List (String × String)
  pub output_data : List (String × String)
  pub start_time : ℕ
  pub end_time : ℕ

-- What the code reads of the host: the system clock, and `std::to_string` of an `int`.
pub record Host (W : Type 0) : Type 0 where
  pub clock : W → ℕ
  pub to_string : ℕ → String

-- How a call of an executor ends: `bool`, or the `what()` of an exception.
pub data Executed : Type 0 where
  returned : Bool → Executed
  threw : String → Executed

abbrev pub Executor : Type 0 → Type 0
Executor W = TaskContext → W → Executed × TaskContext × W

pub record PipelineTask (W : Type 0) : Type 0 where
  pub task_id : String
  pub name : String
  pub description : String
  pub dependencies : List String
  pub executor : Executor W
  pub status : TaskStatus
  pub error_message : String
  pub retry_count : ℕ
  pub max_retries : ℕ

unfoldable pub is_pending : TaskStatus → Bool
is_pending pending = true
is_pending _ = false

unfoldable pub is_completed : Option TaskStatus → Bool
is_completed (some completed) = true
is_completed _ = false

module _ {W : Type 0} where
  unfoldable pub new_task : String → String → Executor W → PipelineTask W
  new_task id name executor = record {
    task_id = id;
    name = name;
    description = "";
    dependencies = [];
    executor = executor;
    status = pending;
    error_message = "";
    retry_count = 0;
    max_retries = 3;
  }

  -- What `execute` makes of the task once the executor is back.
  unfoldable pub after_run : Host W → Executed → PipelineTask W → Bool × PipelineTask W
  after_run host (returned true) t = (true, record t { status = completed })
  after_run host (returned false) t =
      if ltb t.retry_count t.max_retries
      then (false, record t { retry_count = t.retry_count + 1; status = pending })
      else (
        false,
        record t {
          status = failed;
          error_message =
              concat (concat "Task execution failed after " (host.to_string t.max_retries))
                " retries";
        },
      )
  after_run host (threw what) t = (false, record t { status = failed; error_message = what })

  unfoldable pub execute :
      Host W → PipelineTask W → TaskContext → W → Bool × PipelineTask W × TaskContext × W
  unfolding after_run
  execute host t context w =
      let started = record context { task_id = t.task_id; start_time = host.clock w } in
      let (outcome, context', w') = t.executor started w in
      let (success, t') = after_run host outcome (record t { status = running }) in
      (success, t', record context' { end_time = host.clock w' }, w')

  unfoldable pub can_execute : PipelineTask W → List (String × TaskStatus) → Bool
  unfolding is_pending is_completed
  can_execute t statuses =
      is_pending t.status && all_of (λ dep. is_completed (lookup dep statuses)) t.dependencies
