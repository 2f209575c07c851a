-- ===== src/Tests/Pipelines.antt =====
-- Pipelines of built-in tasks, and one whose task always fails.
use distributed_data_science.Prelude.{
  ℕ, suc, ◌≡◌, refl, true, false, some, List, [], ◌∷◌, arith, string_key, All,
}
use distributed_data_science.Prelude.Maps.{lookup}
use distributed_data_science.Pipeline.Task.{Host, PipelineTask, TaskContext, returned, pending}
use distributed_data_science.Pipeline.Orchestrator.{DataOrchestrator, execute_pipeline}
use distributed_data_science.Pipeline.Dependencies.{Synced, IsGrounded}
use distributed_data_science.Pipeline.Outcomes.{execute_pipeline-IsGrounded}
use distributed_data_science.Pipeline.Completes.{execute_pipeline_completes}
use distributed_data_science.Pipeline.Retries.{execute_pipeline_unfinished}

abbrev host : Host ℕ
host = record { clock = λ w. w; to_string = λ n. "n" }

abbrev load : PipelineTask ℕ
load = record {
  task_id = "ingest_1000";
  name = "Data Ingestion";
  description = "";
  dependencies = [];
  executor = λ c w. (returned true, c, suc w);
  status = pending;
  error_message = "";
  retry_count = 0;
  max_retries = 3;
}

abbrev save : PipelineTask ℕ
save = record load { task_id = "export_1000"; dependencies = "ingest_1000" ∷ [] }

abbrev refuses : PipelineTask ℕ
refuses = record load { executor = λ c w. (returned false, c, suc w) }

abbrev two_tasks : DataOrchestrator ℕ
two_tasks = record {
  pipelines = ("etl", load ∷ save ∷ []) ∷ [];
  task_statuses = [];
  execution_history = [];
}

abbrev one_task : DataOrchestrator ℕ
one_task = record two_tasks { pipelines = ("etl", refuses ∷ []) ∷ [] }

completes_example : (execute_pipeline host two_tasks "etl" [] 0).0.success ≡ true
unfolding lookup
completes_example =
    (execute_pipeline_completes host "etl" [] two_tasks 0 (load ∷ save ∷ []) refl
      (tt, (λ c w. refl), ((refl, tt), (λ c w. refl), tt))).0

execute_pipeline-IsGrounded_example :
    let (result, o', _) = execute_pipeline host two_tasks "etl" [] 0 in
    (us : List (PipelineTask ℕ)) × (lookup "etl" o'.pipelines ≡ some us)
    × All (Synced result.task_results) us
    × All (IsGrounded result.task_results) us
unfolding lookup
execute_pipeline-IsGrounded_example =
    execute_pipeline-IsGrounded host two_tasks "etl" [] 0 (load ∷ save ∷ []) refl
      ((refl, tt), (tt, tt))

unfinished_example : (execute_pipeline host one_task "etl" [] 0).0.success ≡ true
unfolding lookup
unfinished_example =
    (execute_pipeline_unfinished host one_task "etl" [] 0 refuses refl (λ c w. refl) refl
      (omega arith)).0

abbrev context : TaskContext
context = record {
  task_id = "";
  pipeline_id = "etl";
  parameters = [];
  input_data = [];
  output_data = [];
  start_time = 0;
  end_time = 0;
}
