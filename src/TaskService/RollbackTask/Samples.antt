-- ===== src/TaskService/RollbackTask/Samples.antt =====
-- A database of one table, two rows of a batch in it, and their rollback.
use data_factory.Base.{
  ℕ, ◌+◌, ◌-◌, ◌≤◌, ◌≡◌, refl, Bool, true, false, not, none, some, List, [], ◌∷◌, map,
  if◌then◌else◌, ◌==◌, ◌=?◌, =?_refl, string_eq, nat_eq, length, keep, any, All, arith,
}
use data_factory.Base.Text.{strategy_is, upper_is}
use data_factory.Base.Dict.{get}
use data_factory.Base.Result.{Result, ok, err}
use data_factory.Base.Slices.{slices, slices_of}
use data_factory.Value.{Value, null, bool, int, text, other}
use data_factory.CaseConfig.{FieldConfig}
use data_factory.Executor.Types.{TaskStatus, TargetType, Payload, Rollback}
use data_factory.Executor.World.{Row, Context, Fault}
use data_factory.Executor.Insert.{ident_code, ident_rest, is_ident, safe_ident}
use data_factory.Executor.Rollback.{
  cell, range_of, ds_of, single_key, capture_payload, fields_of, capture_mysql_rollback, is_null,
}
use data_factory.TaskService.Types.{RollbackStatus, ExecTask, Log, User}
use data_factory.TaskService.{
  task_rollback_conflict, is_visible, may_operate, is_rollbackable, conflict, left_logs,
  rollback_task,
}
use data_factory.TaskService.Requests.{MayRollBack, Answers, rollback_task-Cycle}
use data_factory.TaskService.RollbackTask.{
  Stores, finished, newest_first, flag, mark, fail_log, settle, lift, delete_values,
  rollback_mysql_log, redis_keys_of, delete_slices, rollback_redis_log, rollback_log, process_log,
  process_logs, fail_task, rollback_exec_task,
}
use data_factory.TaskService.RollbackTask.Databases.{Databases, in_range}
use data_factory.TaskService.RollbackTask.Restores.{stored_keys, rollback_mysql_log-Restores}
use data_factory.TaskService.RollbackTask.Verdict.{Settled, rollback_exec_task-Settled}

abbrev same_value : Value → Value → Bool
same_value (int a) (int b) = a == b
same_value (text a) (text b) = a =? b
same_value (other a) (other b) = a =? b
same_value (bool true) (bool true) = true
same_value (bool false) (bool false) = true
same_value _ _ = false

same_value_refl : (v : Value) → is_null v ≡ false → same_value v v ≡ true
same_value_refl null h = absurd (cc h)
same_value_refl (int a) h = ground arith
same_value_refl (text a) h = =?_refl a
same_value_refl (other a) h = =?_refl a
same_value_refl (bool true) h = refl
same_value_refl (bool false) h = refl

-- What a DELETE leaves, and its count.
abbrev delete_rows : (Row → Bool) → List Row → Result Fault ℕ × List Row
delete_rows p w = (ok (length w - length (keep p w)), keep p w)

length-keep_le : (p : Row → Bool) (w : List Row) → length (keep p w) ≤ length w
length-keep_le p [] = omega arith
length-keep_le p (r ∷ w) = ground (arith, length-keep_le p w)

abbrev stores : Stores (List Row)
stores = record {
  connect = λ ds w. (ok tt, w);
  delete_between =
      λ ds table pk start end w. delete_rows (λ r. not (in_range start end (cell pk r))) w;
  delete_in = λ ds table pk ks w. delete_rows (λ r. not (any (same_value (cell pk r)) ks)) w;
  delete_keys = λ ds ks w. (ok 0, w);
  commit = λ w. (ok tt, w);
}

counted :
    (p : Row → Bool) (n : ℕ) (w : List Row)
    → (delete_rows p w).0 ≡ ok n
    → n + length (keep p w) ≡ length w
counted p n w h =
    let same : length w - length (keep p w) ≡ n = cc h in omega (arith, same, length-keep_le p w)

abbrev database : Databases stores
database = record {
  rows = λ w ds table. w;
  matches = same_value;
  matches_refl = same_value_refl;
  matches_int = λ a b. refl;
  connected = λ ds w d t. refl;
  deleted_between = λ ds table pk start end n w h.
      (refl, counted (λ r. not (in_range start end (cell pk r))) n w h);
  deleted_in =
      λ ds table pk ks n w h. (refl, counted (λ r. not (any (same_value (cell pk r)) ks)) n w h);
}

abbrev key : FieldConfig
key = record {
  column_name = "id";
  strategy = some "skip";
  strategy_params = [];
  is_primary_key = true;
}

abbrev context : Context
context = record {
  main_table = "t";
  associations = [];
  insert_order = "t" ∷ [];
  iterate_driver = none;
  redis_syncs = [];
  capture_rollback = true;
  max_retry = 3;
  table_field_configs = ("t", key ∷ []) ∷ [];
  table_ds = [];
  datasource_id = 7;
}

abbrev made : List Row
made = (("v", int 3) ∷ []) ∷ (("v", int 4) ∷ []) ∷ []

abbrev numbered_row : ℕ → Row
numbered_row n = ("id", int n) ∷ []

abbrev captured : Rollback
captured = record {
  target_type = TargetType.mysql;
  datasource_id = 7;
  table_name = "t";
  pk = some "id";
  payload = Payload.range "id" 5 6;
  row_count = 2;
}

is_captured : capture_mysql_rollback context "t" made (some 5) ≡ some captured
unfolding cell range_of ds_of single_key capture_payload fields_of capture_mysql_rollback get
    strategy_is upper_is
is_captured = refl

deleted_made :
    (rollback_mysql_log stores 7 "t"
      (Payload.range "id" 5 6)
      (numbered_row 1 ∷ numbered_row 5 ∷ numbered_row 6 ∷ [])).0
    ≡ ok 2
unfolding rollback_mysql_log lift safe_ident is_ident ident_code ident_rest cell get
deleted_made = refl

single : single_key (keep (λ f. f.is_primary_key) (fields_of context "t")) ≡ some key
unfolding single_key fields_of get
single = refl

keys_made : map (cell "id") (numbered_row 5 ∷ numbered_row 6 ∷ []) ≡ stored_keys key made (some 5)
unfolding cell get stored_keys strategy_is upper_is
keys_made = refl

apart_made :
    All
      (λ b. any (same_value (cell "id" b)) (stored_keys key made (some 5)) ≡ false)
      (numbered_row 1 ∷ [])
unfolding cell get stored_keys strategy_is upper_is
apart_made = (refl, tt)

rollback_mysql_log-Restores_example :
    ((rollback_mysql_log stores 7 "t"
        (Payload.range "id" 5 6)
        (numbered_row 1 ∷ numbered_row 5 ∷ numbered_row 6 ∷ [])).1
      ≡ numbered_row 1 ∷ [])
    × (2 ≡ length (numbered_row 5 ∷ numbered_row 6 ∷ []))
rollback_mysql_log-Restores_example =
    rollback_mysql_log-Restores stores database context "t" made (some 5) captured key is_captured
      single (numbered_row 1 ∷ []) (numbered_row 5 ∷ numbered_row 6 ∷ [])
      (numbered_row 1 ∷ numbered_row 5 ∷ numbered_row 6 ∷ []) 2 keys_made apart_made refl
      deleted_made

abbrev task : ExecTask
task = record {
  created_by = 1;
  group_type = 1;
  status = TaskStatus.success;
  celery_task_id = none;
  rollback_status = RollbackStatus.rolling;
  rolled_back_by = none;
  rollback_error = none;
}

abbrev log : Log
log = record {
  id = 1;
  batch_no = 1;
  target_type = TargetType.mysql;
  datasource_id = 7;
  table_name = "t";
  payload = some (Payload.range "id" 5 6);
  row_count = 2;
  rolled_back = false;
}

-- The second log has no payload that can be read.
abbrev logs : List Log
logs = log ∷ record log { id = 2; payload = none } ∷ []

logs_reported :
    (rollback_exec_task stores (some task) logs 1 (numbered_row 5 ∷ [])).report ≡ finished false 1 1
unfolding cell get slices slices_of safe_ident is_ident ident_code ident_rest newest_first flag mark
    fail_log settle lift delete_values rollback_mysql_log redis_keys_of delete_slices
    rollback_redis_log rollback_log process_log process_logs fail_task rollback_exec_task
logs_reported = refl

distinct : (k : ℕ) → (if 1 == k then 1 else 0) + ((if 2 == k then 1 else 0) + 0) ≤ 1
distinct k = ground arith

rollback_exec_task-Settled_example :
    Settled false (rollback_exec_task stores (some task) logs 1 (numbered_row 5 ∷ []))
rollback_exec_task-Settled_example =
    rollback_exec_task-Settled stores task logs 1 (numbered_row 5 ∷ []) false 1 1 distinct
      logs_reported

abbrev owner : User
owner = record { id = 1; group_type = 1 }

-- The task before its rollback is requested.
abbrev ended_task : ExecTask
ended_task = record task { rollback_status = RollbackStatus.not_rolled }

may : MayRollBack owner ended_task logs
unfolding is_visible may_operate is_rollbackable conflict left_logs
may = record { seen = refl; allowed = refl; ended = refl; free = refl; left = refl }

rollback_task-Cycle_example :
    (rollback_task owner (some task) logs true ≡ (err task_rollback_conflict, some task))
    × Answers false owner
        (rollback_exec_task stores (some task) logs 1 (numbered_row 5 ∷ [])).task
        (rollback_exec_task stores (some task) logs 1 (numbered_row 5 ∷ [])).logs
rollback_task-Cycle_example =
    rollback_task-Cycle stores owner ended_task logs (numbered_row 5 ∷ []) false 1 1 may distinct
      logs_reported
