-- ===== src/Lib.antt =====
-- DataFactory: the engine of backend/app/engine that fills tables with generated rows.
--
-- A case names a main table and associations. `DepAnalyzer` orders its tables so that each comes after
-- the tables that it takes values from. `Executor` cuts the rows into batches, runs the batches on a
-- pool of threads, records each result in the batch logs, the statistics and the progress, and
-- judges the task. A scene runs cases in the layers that `DepAnalyzer` gives.
--
-- Base: shared helpers: Boolean tests, lists over the native numbers, equality, text, counting,
--   dictionaries in insertion order, results.
-- Value, CaseConfig: the values and the configuration that the engine reads.
-- DepAnalyzer: backend/app/engine/dep_analyzer.py (build_insert_order, build_layers). A dictionary is
--   an association list, the queue a list. Its children prove what the two functions promise.
-- Executor: backend/app/engine/executor.py.
--   Types, Batching (calc_batch_size, the shards of _run_all), Progress (the hashes in Redis), Record
--   (_record_batch_result), World and Insert (_bulk_insert, _insert_with_retry), Rollback
--   (_capture_mysql_rollback), Batch (_execute_batch), Pool (_run_offsets as a step relation), RunAll
--   (_run_all), Final (_finalize_task), Recount (_latest_batch_logs, _recount_finalize), Retry (the
--   groups of retry_failed_batches), Task (the two modes), Execute (execute_case_task), Config
--   (_validate_associations).
-- Scene: backend/app/engine/scene_executor.py (execute_scene_task, retry_failed_nodes) and what
--   backend/app/tasks/execute_task.py writes to a node's row. `Workers` gives the cases that are there and what
--   becomes of each node; the nodes of a layer are run one after the other, since none depends on another.
-- Snowflake: backend/app/engine/strategies/pk_strategies.py (SnowflakeIdGenerator) over the readings of a
--   clock, a list.
-- Counters: backend/app/engine/strategies/number_strategies.py (the counters of INCR_FROM columns).
-- Generator: backend/app/engine/data_generator.py (generate_rows) and topo_order_derived of
--   backend/app/engine/strategies/derived_strategies.py. Batch puts it under the batches of Executor.
-- TaskService: backend/app/services/task_service.py (abort_task, retry_failed_batches, rollback_task), and
--   RollbackTask: backend/app/tasks/rollback_task.py. `Stores` are the databases that it deletes from, and
--   `Databases` says what their statements do.
-- SceneService: backend/app/services/scene_service.py (_validate_scene_payload, _detect_exec_mode, abort_scene,
--   retry_scene_nodes). Valid and RetryNodes are about what Scene makes of a scene that it lets through.
-- UserService: backend/app/services/user_service.py (register, login, the states of an account, passwords). Lock is
--   about failed logins, Lifecycle about an account from its registration on.
-- CheckDigits: backend/app/services/tool_service.py (_luhn_check_digit, _idcard_check_digit, _credit_check_char).
--   Standards has the tests of the standards, written by themselves.
-- RedisGen: backend/app/engine/redis_gen.py (execute_redis_case, _RedisBatchWriter) over the books of
--   Executor and the rows of Generator; `RedisBackend` is what they call. Templates: render_template and the validations of templates.
--
-- The pool is a relation: any set of the running futures may be done at a wake-up, and any of the
-- others may be cancelled when the failure rate stops the loop. What a batch comes to is a function
-- of the batch, since each is run at most once. An exception out of a batch ends the run, in Execute, with
-- any books. The generator of rows, the SQL driver and the Redis
-- synchronisation are a record `Backend` of functions on a world; that the generator makes as many
-- rows as it is asked for is the hypothesis `Fills`, which Generator.Batch is about.
--
-- Loops: the two loops of DepAnalyzer have one unit of fuel more than there are tables or nodes, and it
-- is shown that they never use it up; a range has as much fuel as its end, and the loop that repeats
-- sampled values as much as the size it fills; the recursion of topo_order_derived has one unit more than
-- there are derived columns, and slices have one for each item. The loop of
-- _run_offsets is shown to end.
--
-- Numbers are natural numbers; Python's do not overflow. The threshold of the failure rate is a fraction.
-- Times, durations, expiry of keys and the rate window of the progress are left out, as are the
-- other services and the API. `upper()` is that of ASCII, and names are compared by their characters, where MySQL
-- goes by a collation. A payload of the rollback log and the driver's value in a batch log are values, not
-- their JSON or `str()`. A node's row is taken to be committed before its worker
-- ends, which the code does not make sure of.
pub mod Base
pub mod CaseConfig
pub mod CheckDigits
pub mod Counters
pub mod DepAnalyzer
pub mod Executor
pub mod Generator
pub mod RedisGen
pub mod Scene
pub mod SceneService
pub mod Snowflake
pub mod TaskService
pub mod UserService
pub mod Value
