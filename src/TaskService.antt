-- ===== src/TaskService.antt =====
-- backend/app/services/task_service.py: what a user may do with a task. The progress in Redis, the
-- times and the audit are left out.
pub mod Types
pub mod RollbackTask
pub mod Requests
mod Samples
use data_factory.Base.{
  ℕ, String, Bool, true, false, not, Option, none, some, List, [], ◌∷◌, if◌then◌else◌, ◌==◌, keep,
  length, sum_by, is_empty,
}
use data_factory.Base.Result.{Result, ok, err, ◌>>=◌, raise_if, ◌>>◌}
use data_factory.Executor.Types.{TaskStatus}
use data_factory.TaskService.Types.{RollbackStatus, ExecTask, Log, User}

-- `BizException`, by its code.
pub data BizError : Type 0 where
  forbidden task_not_found task_already_finished task_not_rollbackable task_rollback_conflict
        celery_submit_failed :
      BizError

-- `ADMIN_GROUP_TYPE`
abbrev pub admin_group_type : ℕ
admin_group_type = 99

-- `_RUNNING_STATUS`
unfoldable pub is_running : TaskStatus → Bool
is_running TaskStatus.pending = true
is_running TaskStatus.running = true
is_running TaskStatus.retrying = true
is_running _ = false

-- `_RETRYABLE_STATUS`
pub is_retryable : TaskStatus → Bool
is_retryable TaskStatus.failed = true
is_retryable TaskStatus.partial = true
is_retryable _ = false

-- `_ROLLBACKABLE_STATUS`
pub is_rollbackable : TaskStatus → Bool
is_rollbackable TaskStatus.success = true
is_rollbackable TaskStatus.failed = true
is_rollbackable TaskStatus.partial = true
is_rollbackable _ = false

-- `ensure_group_visible`
unfoldable pub is_visible : User → ℕ → Bool
is_visible user group =
    if user.group_type == admin_group_type
    then true
    else if group == user.group_type
    then true
    else group == admin_group_type

-- `get_task_checked`
pub get_task_checked : User → Option ExecTask → Result BizError ExecTask
unfolding is_visible
get_task_checked user none = err task_not_found
get_task_checked user (some task) =
    if is_visible user task.group_type then ok task else err task_not_found

-- The user is the task's owner, or an administrator.
pub may_operate : User → ExecTask → Bool
may_operate user task =
    if task.created_by == user.id then true else user.group_type == admin_group_type

-- `if task.celery_task_id: revoke(...)`
unfoldable pub revoked : Option String → Option String
revoked none = none
revoked (some String.[]) = none
revoked (some (String.◌∷◌ c s)) = some (String.◌∷◌ c s)

-- `abort_task`: the task, and the Celery task that is revoked.
pub abort_task : User → Option ExecTask → Result BizError (ExecTask × Option String)
unfolding get_task_checked may_operate is_running revoked
abort_task user found = do
  task ← get_task_checked user found
  raise_if (not (may_operate user task)) forbidden
  raise_if (not (is_running task.status)) task_already_finished
  ok (record task { status = TaskStatus.aborted }, revoked task.celery_task_id)

-- `retry_failed_batches`: the executor's function is submitted for this task.
pub retry_failed_batches : User → Option ExecTask → Result BizError ExecTask
unfolding get_task_checked may_operate is_retryable
retry_failed_batches user found = do
  task ← get_task_checked user found
  raise_if (not (may_operate user task)) forbidden
  raise_if (not (is_retryable task.status)) task_already_finished
  ok task

-- The logs that `rollback_exec_task` will go over.
pub left_logs : List Log → List Log
left_logs logs = keep (λ l. not l.rolled_back) logs

pub conflict : RollbackStatus → Bool
conflict RollbackStatus.rolling = true
conflict RollbackStatus.rolled = true
conflict _ = false

-- The checks of `rollback_task`.
pub check_rollback : User → Option ExecTask → List Log → Result BizError ExecTask
unfolding get_task_checked may_operate is_rollbackable conflict left_logs
check_rollback user found logs = do
  task ← get_task_checked user found
  raise_if (not (may_operate user task)) forbidden
  raise_if (not (is_rollbackable task.status)) task_not_rollbackable
  raise_if (conflict task.rollback_status) task_rollback_conflict
  raise_if (is_empty (left_logs logs)) task_not_rollbackable
  ok task

-- `rollback_task`: the answer with the number of rows, and the task. `submitted`: Celery takes the task.
pub rollback_task :
    User → Option ExecTask → List Log → (submitted : Bool) → Result BizError ℕ × Option ExecTask
unfolding check_rollback left_logs
rollback_task user found logs submitted = elim (check_rollback user found logs) [
  | err e ↦ (err e, found)
  | ok task ↦
      if submitted
      then (
        ok (sum_by (λ l. l.row_count) (left_logs logs)),
        some (record task { rollback_status = RollbackStatus.rolling }),
      )
      else (
        err celery_submit_failed,
        some (record task { rollback_status = RollbackStatus.not_rolled }),
      )
]
