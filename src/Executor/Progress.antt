-- ===== src/Executor/Progress.antt =====
-- backend/app/engine/executor.py: the progress of a task in Redis. Times, the status text's expiry
-- and the ten-second rate window are left out.
use data_factory.Base.{
  ℕ, ◌+◌, ◌*◌, String, false, Option, none, some, List, [], ◌∷◌, ltb, leb, if◌then◌else◌, string_eq,
  length,
}
use data_factory.Base.Dict.{Dict, get, put}
use data_factory.Executor.Types.{TaskStatus}

pub data Phase : Type 0 where
  pending running success failed partial_success aborted : Phase

-- A field of the hash at TABLE_PROGRESS_KEY.
pub record TableProgress : Type 0 where
  pub target : ℕ
  pub success : ℕ
  pub failed : ℕ
  pub status : Phase

-- The hash at PROGRESS_KEY, and the tables' hash.
pub record Progress : Type 0 where
  pub status : Phase
  pub target_total : ℕ
  pub success_total : ℕ
  pub fail_total : ℕ
  pub table_count : ℕ
  pub batch_size : ℕ
  pub tables : Dict String TableProgress

-- The part of `_init_progress` that writes the tables' hash.
init_tables : ℕ → List String → Dict String TableProgress → Dict String TableProgress
init_tables target [] d = d
init_tables target (t ∷ ts) d =
    init_tables target ts
      (put t (record { target = target; success = 0; failed = 0; status = Phase.pending }) d)

-- `_init_progress`: the tables' hash keeps fields of other tables.
pub init_progress : ℕ → ℕ → List String → Progress → Progress
unfolding init_tables
init_progress per_table_target batch_size insert_order p = record {
  status = Phase.running;
  target_total = per_table_target * length insert_order;
  success_total = 0;
  fail_total = 0;
  table_count = length insert_order;
  batch_size = batch_size;
  tables = init_tables per_table_target insert_order p.tables;
}

table_status : ℕ → ℕ → ℕ → Phase
table_status target done lost =
    if (if ltb 0 target then leb target done else false)
    then Phase.success
    else if (if ltb 0 lost then leb target (done + lost) else false)
    then Phase.failed
    else Phase.running

read_table : Option TableProgress → TableProgress
read_table none = record { target = 0; success = 0; failed = 0; status = Phase.pending }
read_table (some t) = t

add_rows : ℕ → ℕ → TableProgress → TableProgress
unfolding table_status
add_rows success_delta fail_delta t = record {
  target = t.target;
  success = t.success + success_delta;
  failed = t.failed + fail_delta;
  status = table_status t.target (t.success + success_delta) (t.failed + fail_delta);
}

-- `_update_table_progress`
unfoldable pub update_table_progress : String → ℕ → ℕ → Progress → Progress
unfolding read_table add_rows
update_table_progress table success_delta fail_delta p = record p {
  tables = put table (add_rows success_delta fail_delta (read_table (get table p.tables))) p.tables;
}

-- `_progress_success`
unfoldable pub progress_success : String → ℕ → Progress → Progress
unfolding update_table_progress
progress_success table count p =
    update_table_progress table count 0 (record p { success_total = p.success_total + count })

-- `_progress_fail`
unfoldable pub progress_fail : String → ℕ → Progress → Progress
unfolding update_table_progress
progress_fail table count p =
    update_table_progress table 0 count (record p { fail_total = p.fail_total + count })

-- REDIS_STATUS_MAP.get(final_status, "failed")
unfoldable pub phase_of : TaskStatus → Phase
phase_of TaskStatus.success = Phase.success
phase_of TaskStatus.partial = Phase.partial_success
phase_of TaskStatus.aborted = Phase.aborted
phase_of _ = Phase.failed

-- `_write_final_progress`
unfoldable pub write_final_progress : TaskStatus → Progress → Progress
unfolding phase_of
write_final_progress final p = record p { status = phase_of final }
