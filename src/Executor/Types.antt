-- ===== src/Executor/Types.antt =====
-- backend/app/engine/executor.py: the results of a batch, the statistics and the task's states.
use data_factory.Base.{ℕ, String, Bool, false, Option, List, []}
use data_factory.Value.{Value}

-- df_exec_task.status
pub data TaskStatus : Type 0 where
  pending running success failed retrying partial aborted : TaskStatus

-- df_exec_batch_log.status
pub data BatchStatus : Type 0 where
  success failed : BatchStatus

-- The result of one table in one batch. Times and durations are left out.
pub record TableResult : Type 0 where
  pub table : String
  pub status : BatchStatus
  pub size : ℕ
  pub retry_times : ℕ
  pub error : Option String

-- How a batch's rows are found again: by the numbers that the database gave, or by their keys.
pub data Payload : Type 0 where
  range : (pk : String) (start end : ℕ) → Payload
  values : (pk : String) (keys : List Value) → Payload
  redis_keys : (keys : List String) → Payload

pub data TargetType : Type 0 where
  mysql redis : TargetType

pub record Rollback : Type 0 where
  pub target_type : TargetType
  pub datasource_id : ℕ
  pub table_name : String
  pub pk : Option String
  pub payload : Payload
  pub row_count : ℕ

pub record BatchResult : Type 0 where
  pub batch_no : ℕ
  pub size : ℕ
  pub round_no : Option ℕ
  pub drive_value : Option Value
  pub tables : List TableResult
  pub rollbacks : List Rollback

-- One line of `stats["errors"]`.
pub data StatError : Type 0 where
  batch_failed : (table : String) (batch_no : ℕ) (error : Option String) → StatError
  rows_not_run : ℕ → StatError
  nothing_run : StatError

pub record Stats : Type 0 where
  pub success_rows : ℕ
  pub fail_rows : ℕ
  pub errors : List StatError
  pub stopped : Bool

-- `_new_stats()`
abbrev pub new_stats : Stats
new_stats = record { success_rows = 0; fail_rows = 0; errors = []; stopped = false }
