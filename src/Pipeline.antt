-- ===== src/Pipeline.antt =====
-- src/pipeline/data_orchestrator.cpp and include/pipeline/data_orchestrator.h.
-- An executor is code of the caller: a function of its context and of the state of the world `W`,
-- that returns or throws a `std::exception`. The clock is read from the world. A task object stands
-- once in one pipeline, so tasks are kept by value; `retry_count_` counts up to `max_retries_`, an
-- `int`. Printing is left out; the mutex makes a method one step.
pub mod Task
pub mod Builtin
pub mod Orchestrator
pub mod Dependencies
pub mod Reliable
pub mod Outcomes
pub mod Completes
pub mod Retries
pub mod Names
