-- ===== src/Pipeline/Builtin.antt =====
-- The tasks that `DataOrchestrator` builds (src/pipeline/data_orchestrator.cpp,
-- `create_data_ingestion_task` to `create_data_export_task`). The identifier that `generate_task_id`
-- draws is an argument; `std::rand` is a parameter; the sleeps and what is printed are left out.
use distributed_data_science.Prelude.{ℕ, ◌%◌, true, String, List, string_key, concat}
use distributed_data_science.Prelude.Maps.{insert, lookup_or}
use distributed_data_science.Pipeline.Task.{returned, Executor, PipelineTask, new_task}

abbrev Pairs : Type 0
Pairs = List (String × String)

-- `m[k]`, which makes an empty entry where there is none.
unfoldable pub touch : String → Pairs → Pairs
unfolding insert lookup_or
touch k m = insert k (lookup_or "" k m) m

module _ {W : Type 0} where
  unfoldable pub ingest : String → Executor W
  unfolding insert
  ingest destination c w =
      let out = insert "ingested_records" "1000" c.output_data in
      (returned true, record c { output_data = insert "destination_path" destination out }, w)

  unfoldable pub transform : String → Executor W
  unfolding insert lookup_or touch
  transform transform_type c w =
      let records = lookup_or "" "ingested_records" c.input_data in
      let out = insert "transformed_records" records c.output_data in
      (
        returned true,
        record c {
          input_data = touch "ingested_records" c.input_data;
          output_data = insert "transformation_type" transform_type out;
        },
        w,
      )

  unfoldable pub validate : Executor W
  unfolding insert lookup_or touch
  validate c w =
      let records = lookup_or "" "transformed_records" c.input_data in
      let out = insert "validation_status" "passed" c.output_data in
      (
        returned true,
        record c {
          input_data = touch "transformed_records" c.input_data;
          output_data = insert "validated_records" records out;
        },
        w,
      )

  unfoldable pub train : (W → ℕ × W) → (ℕ → String) → String → Executor W
  unfolding insert
  train rand to_string algorithm c w =
      let (drawn, w') = rand w in
      let out = insert "model_id" (concat "model_" (to_string (drawn % 10000))) c.output_data in
      (
        returned true,
        record c { output_data = insert "algorithm" algorithm (insert "accuracy" "0.94" out) },
        w',
      )

  unfoldable pub export : String → String → Executor W
  unfolding insert
  export destination format c w =
      let out = insert "export_path" destination c.output_data in
      (
        returned true,
        record c {
          output_data = insert "exported_size" "15.2MB" (insert "export_format" format out);
        },
        w,
      )

  unfoldable pub create_data_ingestion_task : String → String → String → PipelineTask W
  unfolding new_task ingest
  create_data_ingestion_task id source destination =
      new_task id (concat "Data Ingestion: " source) (ingest destination)

  unfoldable pub create_data_transformation_task : String → String → PipelineTask W
  unfolding new_task transform
  create_data_transformation_task id transform_type =
      new_task id (concat "Data Transformation: " transform_type) (transform transform_type)

  unfoldable pub create_data_validation_task : String → PipelineTask W
  unfolding new_task validate
  create_data_validation_task id = new_task id "Data Validation" validate

  unfoldable pub create_ml_training_task :
      (W → ℕ × W) → (ℕ → String) → String → String → PipelineTask W
  unfolding new_task train
  create_ml_training_task rand to_string id algorithm =
      new_task id (concat "ML Training: " algorithm) (train rand to_string algorithm)

  unfoldable pub create_data_export_task : String → String → String → PipelineTask W
  unfolding new_task export
  create_data_export_task id destination format =
      new_task id (concat "Data Export: " format) (export destination format)
