-- ===== src/Pipeline/Names.antt =====
-- `status_to_string` of src/pipeline/data_orchestrator.cpp.
use distributed_data_science.Prelude.{String}
use distributed_data_science.Pipeline.Task.{
  TaskStatus, pending, running, completed, failed, skipped, cancelled,
}

unfoldable pub status_to_string : TaskStatus → String
status_to_string pending = "PENDING"
status_to_string running = "RUNNING"
status_to_string completed = "COMPLETED"
status_to_string failed = "FAILED"
status_to_string skipped = "SKIPPED"
status_to_string cancelled = "CANCELLED"
