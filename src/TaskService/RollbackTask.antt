-- ===== src/TaskService/RollbackTask.antt =====
-- backend/app/tasks/rollback_task.py: the Celery task that deletes what a task has written.
pub mod Databases
pub mod Restores
pub mod Verdict
mod Samples
use data_factory.Base.{
  ℕ, ◌+◌, String, Bool, true, false, not, Option, none, some, List, [], ◌∷◌, ◌++◌, map,
  if◌then◌else◌, string_eq, nat_eq, keep, length,
}
use data_factory.Base.Text.{cut}
use data_factory.Base.Count.{contains}
use data_factory.Base.Result.{Result, ok, err}
use data_factory.Base.Slices.{slices}
use data_factory.Value.{Value}
use data_factory.Executor.Types.{TargetType, Payload}
use data_factory.Executor.World.{Fault, other, fault_text, Action, pure, raise, ◌>>=◌}
use data_factory.Executor.Insert.{safe_ident}
use data_factory.TaskService.Types.{
  RollbackStatus, FailedLog, RollbackError, failed_items, rollback_raised, ExecTask, Log,
}

-- What a rollback calls: the pools of engines and clients, the statements, each in a transaction of its
-- own, and the commit of the session.
pub record Stores (W : Type 0) : Type 0 where
  pub connect : (datasource_id : ℕ) → Action W Unit
  pub delete_between : (datasource_id : ℕ) (table pk : String) (start end : ℕ) → Action W ℕ
  pub delete_in : (datasource_id : ℕ) (table pk : String) (keys : List Value) → Action W ℕ
  pub delete_keys : (datasource_id : ℕ) (keys : List String) → Action W ℕ
  pub commit : Action W Unit

-- What the loop has come to: the world, `deleted_keys`, the rows deleted, `failed_logs`, and the logs
-- whose flag is committed.
pub record RollbackRun (W : Type 0) : Type 0 where
  pub world : W
  pub deleted_keys : List String
  pub total_deleted : ℕ
  pub failed_logs : List FailedLog
  pub rolled : List ℕ

-- What the task returns.
pub data Report : Type 0 where
  task_missing : Report
  finished : (success : Bool) (deleted failed : ℕ) → Report
  errored : String → Report

-- The session's rows after the task, and what it returns.
pub record Done (W : Type 0) : Type 0 where
  pub task : Option ExecTask
  pub logs : List Log
  pub report : Report
  pub world : W

-- `_DELETE_CHUNK` and `_DEL_CHUNK`, less one.
abbrev pub delete_chunk : ℕ
delete_chunk = 999

abbrev pub del_chunk : ℕ
del_chunk = 499

pub redis_keys_of : Payload → List String
redis_keys_of (Payload.redis_keys keys) = keys
redis_keys_of _ = []

-- The logs that are not rolled back, newest first.
pub newest_first : List Log → List Log
newest_first [] = []
newest_first (l ∷ ls) = newest_first ls ++ (if l.rolled_back then [] else l ∷ [])

-- `rolled_back = 1`, for the logs `ids`.
pub flag : List ℕ → Log → Log
flag ids l = record l { rolled_back = if contains l.id ids then true else l.rolled_back }

pub mark : List ℕ → List Log → List Log
unfolding flag
mark ids ls = map (flag ids) ls

abbrev pub failed_log : Log → Fault → FailedLog
failed_log log e = record {
  target_type = log.target_type;
  table_name = log.table_name;
  batch_no = log.batch_no;
  error = cut 200 (fault_text e);
}

abbrev pub start : {W : Type 0} → W → RollbackRun W
start w = record { world = w; deleted_keys = []; total_deleted = 0; failed_logs = []; rolled = [] }

pub fail_log : {W : Type 0} → Log → Fault → RollbackRun W → RollbackRun W
fail_log log e p = record p { failed_logs = p.failed_logs ++ failed_log log e ∷ [] }

-- The final state of the task.
pub settle : ℕ → List FailedLog → ExecTask → ExecTask
settle operator [] task = record task {
  rollback_status = RollbackStatus.rolled;
  rolled_back_by = some operator;
}
settle operator (f ∷ fs) task = record task {
  rollback_status = RollbackStatus.rollback_failed;
  rolled_back_by = some operator;
  rollback_error = some (failed_items (length (f ∷ fs)) f);
}

module _ {W : Type 0} (s : Stores W) where
  lift : {A : Type 0} → Result Fault A → Action W A
  lift r w = (r, w)

  pub delete_values : ℕ → String → String → List (List Value) → ℕ → Action W ℕ
  delete_values ds table pk [] deleted = pure deleted
  delete_values ds table pk (chunk ∷ rest) deleted = do
    n ← s.delete_in ds table pk chunk
    delete_values ds table pk rest (deleted + n)

  -- `_rollback_mysql_log`
  pub rollback_mysql_log : ℕ → String → Payload → Action W ℕ
  unfolding lift delete_values
  rollback_mysql_log ds name (Payload.range pk start end) = do
    _ ← s.connect ds
    table ← lift (safe_ident name)
    column ← lift (safe_ident pk)
    s.delete_between ds table column start end
  rollback_mysql_log ds name (Payload.values pk keys) = do
    _ ← s.connect ds
    table ← lift (safe_ident name)
    column ← lift (safe_ident pk)
    delete_values ds table column (slices delete_chunk keys) 0
  rollback_mysql_log ds name (Payload.redis_keys keys) = do
    _ ← s.connect ds
    table ← lift (safe_ident name)
    raise (other "'pk'")

  pub delete_slices : ℕ → List (List String) → ℕ → Action W ℕ
  delete_slices ds [] deleted = pure deleted
  delete_slices ds (chunk ∷ rest) deleted = do
    n ← s.delete_keys ds chunk
    delete_slices ds rest (deleted + n)

  -- `_rollback_redis_log`: the result, `deleted_keys` and the world.
  pub rollback_redis_log : ℕ → Payload → List String → W → Result Fault ℕ × List String × W
  unfolding delete_slices redis_keys_of
  rollback_redis_log ds payload deleted_keys w =
      let (connected, w') = s.connect ds w in
      elim connected [
        | err e ↦ (err e, deleted_keys, w')
        | ok _ ↦
            let keys = keep (λ k. not (contains k deleted_keys)) (redis_keys_of payload) in
            let (r, w'') = delete_slices ds (slices del_chunk keys) 0 w' in
            (r, deleted_keys ++ keys, w'')
      ]

  pub rollback_log : Log → List String → W → Result Fault ℕ × List String × W
  unfolding rollback_mysql_log rollback_redis_log
  rollback_log log deleted_keys w = elim log.payload [
    | none ↦ (err (other "JSONDecodeError"), deleted_keys, w)
    | some payload ↦ elim log.target_type [
      | TargetType.redis ↦ rollback_redis_log log.datasource_id payload deleted_keys w
      | TargetType.mysql ↦
          let (r, w') = rollback_mysql_log log.datasource_id log.table_name payload w in
          (r, deleted_keys, w')
    ]
  ]

  -- The body of the loop: the flag of a log is kept if its deletions and the commit succeed.
  pub process_log : Log → RollbackRun W → RollbackRun W
  unfolding rollback_log fail_log
  process_log log p =
      let (r, keys, w) = rollback_log log p.deleted_keys p.world in
      elim r [
        | err e ↦ fail_log log e (record p { world = w; deleted_keys = keys })
        | ok n ↦
            let (committed, w') = s.commit w in
            let q : RollbackRun W = record p {
              world = w';
              deleted_keys = keys;
              total_deleted = p.total_deleted + n;
            } in
            elim committed [
              | err e ↦ fail_log log e q
              | ok _ ↦ record q { rolled = log.id ∷ p.rolled }
            ]
      ]

  pub process_logs : List Log → RollbackRun W → RollbackRun W
  unfolding process_log
  process_logs [] p = p
  process_logs (log ∷ rest) p = process_logs rest (process_log log p)

  -- The handler of an exception outside of the loop.
  pub fail_task : ExecTask → List Log → Fault → W → Done W
  fail_task task logs e w =
      let (committed, w') = s.commit w in
      record {
        task = some (elim committed [
          | err _ ↦ task
          | ok _ ↦ record task {
            rollback_status = RollbackStatus.rollback_failed;
            rollback_error = some (rollback_raised (cut 500 (fault_text e)));
          }
        ]);
        logs = logs;
        report = errored (cut 500 (fault_text e));
        world = w';
      }

  -- `rollback_exec_task`, without the notification at its end.
  pub rollback_exec_task : Option ExecTask → List Log → ℕ → W → Done W
  unfolding newest_first mark process_logs settle fail_task
  rollback_exec_task none logs operator w = record {
    task = none;
    logs = logs;
    report = task_missing;
    world = w;
  }
  rollback_exec_task (some task) logs operator w =
      let p = process_logs (newest_first logs) (start w) in
      let (committed, w') = s.commit p.world in
      elim committed [
        | err e ↦ fail_task task (mark p.rolled logs) e w'
        | ok _ ↦ record {
          task = some (settle operator p.failed_logs task);
          logs = mark p.rolled logs;
          report =
              finished (elim p.failed_logs [ [] ↦ true | _ ∷ _ ↦ false ]) p.total_deleted
                (length p.failed_logs);
          world = w';
        }
      ]
