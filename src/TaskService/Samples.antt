-- ===== src/TaskService/Samples.antt =====
-- A failed task of group 1 and its owner.
use data_factory.Base.{◌≡◌, refl, true, false, none, some, List, [], ◌∷◌, nat_eq}
use data_factory.Base.Result.{ok}
use data_factory.Executor.Types.{TaskStatus, TargetType}
use data_factory.TaskService.Types.{RollbackStatus, ExecTask, Log, User}
use data_factory.TaskService.{
  is_running, is_rollbackable, is_visible, get_task_checked, may_operate, revoked, abort_task,
  left_logs, conflict,
}
use data_factory.TaskService.Requests.{MayRollBack, Final, abort_task-Final}

abbrev owner : User
owner = record { id = 1; group_type = 1 }

abbrev task : ExecTask
task = record {
  created_by = 1;
  group_type = 1;
  status = TaskStatus.failed;
  celery_task_id = some "job";
  rollback_status = RollbackStatus.not_rolled;
  rolled_back_by = none;
  rollback_error = none;
}

-- A log without a payload, so that its rollback fails.
abbrev logs : List Log
logs =
    record {
      id = 1;
      batch_no = 1;
      target_type = TargetType.mysql;
      datasource_id = 7;
      table_name = "t";
      payload = none;
      row_count = 2;
      rolled_back = false;
    }
    ∷ []

may : MayRollBack owner task logs
unfolding is_visible may_operate is_rollbackable conflict left_logs
may = record { seen = refl; allowed = refl; ended = refl; free = refl; left = refl }

abbrev running_task : ExecTask
running_task = record task { status = TaskStatus.running }

abbrev stopped_task : ExecTask
stopped_task = record task { status = TaskStatus.aborted }

stopped : abort_task owner (some running_task) ≡ ok (stopped_task, some "job")
unfolding abort_task get_task_checked is_visible may_operate is_running revoked
stopped = refl

abort_task-Final_example :
    (is_running running_task.status ≡ true)
    × (may_operate owner running_task ≡ true)
    × (TaskStatus.aborted ≡ TaskStatus.aborted)
    × Final stopped_task
abort_task-Final_example = abort_task-Final owner running_task stopped_task (some "job") stopped
