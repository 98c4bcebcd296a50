-- ===== src/TaskService/Types.antt =====
-- backend/app/models/task.py: a task and its rollback logs, as far as the services read them, and
-- backend/app/models/user.py: a user's groups.
use data_factory.Base.{ℕ, String, Bool, Option}
use data_factory.Executor.Types.{TaskStatus, TargetType, Payload}

-- df_exec_task.rollback_status
pub data RollbackStatus : Type 0 where
  not_rolled rolling rolled rollback_failed : RollbackStatus

-- An entry of `failed_logs`.
pub record FailedLog : Type 0 where
  pub target_type : TargetType
  pub table_name : String
  pub batch_no : ℕ
  pub error : String

-- What the rollback writes to `error_msg`.
pub data RollbackError : Type 0 where
  failed_items : ℕ → FailedLog → RollbackError
  rollback_raised : String → RollbackError

-- df_exec_task
pub record ExecTask : Type 0 where
  pub created_by : ℕ
  pub group_type : ℕ
  pub status : TaskStatus
  pub celery_task_id : Option String
  pub rollback_status : RollbackStatus
  pub rolled_back_by : Option ℕ
  pub rollback_error : Option RollbackError

-- df_exec_rollback_log: the payload is missing where its text is no JSON.
pub record Log : Type 0 where
  pub id : ℕ
  pub batch_no : ℕ
  pub target_type : TargetType
  pub datasource_id : ℕ
  pub table_name : String
  pub payload : Option Payload
  pub row_count : ℕ
  pub rolled_back : Bool

-- df_user
pub record User : Type 0 where
  pub id : ℕ
  pub group_type : ℕ
