-- ===== src/Lib.antt =====
-- Models and proofs for the distributed data science framework: the parts of src/ and include/ that
-- keep state and decide something, each in a module of its own.
--
-- The parts, and where they are:
--   Utils/CircuitBreaker: include/utils/circuit_breaker.h. `allow`, `on_success`, `on_failure`, `reset`.
--   Utils/Retry: include/utils/retry.h. `run_with_retry` and its `for` loop, `attempt_loop`.
--   Utils/Types: src/utils/types.cpp, the names of the enumerations and the bytes of matrices.
--   Notifications: src/notifications/notification_center.cpp, a function for each method.
--   Pipeline: src/pipeline/data_orchestrator.cpp. Task has `PipelineTask::execute` and `can_execute`,
--     Builtin the tasks that the orchestrator makes, Orchestrator `execute_pipeline`: `rounds` is its
--     `while`, `pass` the `for` inside, `visit` and `run_task` the body of that.
--   Web: src/web/web_server.cpp, of which each file takes the fields that its methods use. Sessions,
--     Accounts (log in, lockout, roles), ResponseCache, Frames, Rooms and Messages (of the web
--     socket, Messages with its mutex), and Admission (rate limit, connections, bandwidth). Texts is
--     `std::string`, on positions in a text. Routing has `find_route`, its cache and the middleware: a
--     middleware is what it does with `next`, a tree. Tokens makes and checks the tokens, Login has
--     the pages that use Sessions, Accounts, Tokens and Errors. Errors (with the recovery), Protection
--     and Analytics are each in the monad of their mutex. Sanitizing works on bytes, Negotiation
--     chooses among what a client accepts. Requests is `handle_request_sync`, which
--     asks Checks (`validate_request`) about a request and goes on to the response.
--   Security: src/security/security_auditor.cpp, in a monad (Prelude/Mutex) where code runs with the
--     mutex free or held, and locking it again is a deadlock.
--   Config: src/config/configuration_manager.cpp, values and sections.
--   Monitoring: src/monitoring/system_monitor.cpp, the alerts and the history of the metrics.
--   Profiling: src/profiling/performance_profiler.cpp, the measurements and their statistics.
--   Resources: src/resources/resource_pool.cpp. Pool has the resources and `find_best_resource`,
--     Calls and Releases the methods, with `pool_mutex_` as in Security; `Env` is what a call meets while
--     it waits.
--   Storage: src/storage/hadoop_storage.cpp. Streams is `std::stringstream`, Matrices the stub of
--     Eigen (include/utils/eigen_stub.h), Format the texts, Hadoop the connection and the files, Saved the
--     methods that save and load.
--   Validation: src/validation/config_validator.cpp. `each_field` and `each_rule` are the loops of
--     `validate_config`, `check_rules` that of `validate_field`.
--   Prelude: lists, Boolean tests, dictionaries as association lists (Prelude/Maps), `size_t`
--     (Prelude/Words), the mutex.
--   Tests: the theorems at concrete inputs.
-- Outside Web the parts do not call each other in the repository; they share only what is in Prelude.
-- In Web, Messages uses the frames of Frames, Errors uses Sanitizing, Login the modules named, and Requests
-- Checks, Routing and Sanitizing.
--
-- What is a parameter: the clock (its reading is an argument of a call, or a field of a host
-- record), the random source, the file system, doubles and how they are printed and read,
-- `std::hash`, `std::regex_search`, `std::to_string`, executors, callables and listeners. A
-- `size_t` counter wraps around at 2^64; an `int` counter that only grows is a natural number, so
-- an overflow of an `int` is not modelled. A map has no order. Printing is left out, but for
-- `print_summary`, which can throw.
--
-- Fuel: `attempt_loop` and `rounds` count down the attempts and rounds that the code itself allows
-- (`max_attempts`, twice the number of tasks), so there is no fuel that the code does not have.
-- `process_pending_requests` has an `Env` for each turn of its loop, and one more than there are
-- pending requests is enough while every wait times out; a request that is notified could go on
-- for ever. `log_event` nests two calls, as the code does: the event that reports an injection is
-- not one. `execute_middleware_stack` has the depth of the stack and one, which is enough.
--
-- Not modelled: the class ConfigurationManager, whose getters and setters are mostly unwritten, the
-- reports of the profiler and of the monitor, the databases, the job manager of the store (fixed
-- answers), the test framework, the numerical algorithms (code in `double`s), the pages of HTML and JSON
-- of the web server but those of Login, and its socket loop.
--
-- src/web/web_server.cpp does not compile as it stands: methods are defined twice, fields that no
-- header declares are used (`status_text`), `void` results are returned. The models take what the
-- code means, and say so where it matters.
pub mod Prelude
pub mod Utils
pub mod Pipeline
pub mod Notifications
pub mod Security
pub mod Validation
pub mod Config
pub mod Monitoring
pub mod Profiling
pub mod Resources
pub mod Storage
pub mod Web
pub mod Tests
