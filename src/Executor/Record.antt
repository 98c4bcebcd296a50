-- ===== src/Executor/Record.antt =====
-- backend/app/engine/executor.py: `_record_batch_result` and the failure rate.
pub mod Accounts
use data_factory.Base.{
  ℕ, zero, suc, ◌+◌, ◌*◌, ◌≤◌, ◌<◌, ◌≡◌, refl, ap, String, Bool, true, false, Option, none, some,
  List, [], ◌∷◌, ◌++◌, map, ltb, if◌then◌else◌, string_eq, sum_by, length, length-append, arith,
}
use data_factory.Value.{Value}
use data_factory.Executor.Types.{
  TableResult, BatchResult, BatchStatus, Rollback, TargetType, Payload, Stats, StatError,
  batch_failed,
}
use data_factory.Executor.Progress.{Progress, progress_success, progress_fail}

-- A row of df_exec_batch_log. Rows are numbered by their place.
pub record BatchLog : Type 0 where
  pub table_name : String
  pub batch_no : ℕ
  pub batch_size : ℕ
  pub status : BatchStatus
  pub retry_times : ℕ
  pub error_msg : Option String
  pub round_no : Option ℕ
  pub drive_value : Option Value

-- A row of df_exec_rollback_log.
pub record RollbackLog : Type 0 where
  pub entry : Rollback
  pub batch_no : ℕ
  pub round_no : Option ℕ
  pub rolled_back : Bool

-- What the main thread writes to while a task runs.
pub record Ledger : Type 0 where
  pub batch_logs : List BatchLog
  pub rollback_logs : List RollbackLog
  pub progress : Progress
  pub stats : Stats

-- The row of a result in the batch log. The driver's value is kept as a value, not as its `str()`.
unfoldable pub log_of : BatchResult → TableResult → BatchLog
log_of b r = record {
  table_name = r.table;
  batch_no = b.batch_no;
  batch_size = r.size;
  status = r.status;
  retry_times = r.retry_times;
  error_msg = r.error;
  round_no = b.round_no;
  drive_value = b.drive_value;
}

unfoldable pub count_rows : BatchStatus → BatchResult → TableResult → Ledger → Ledger
count_rows BatchStatus.success b r l = record l {
  progress = progress_success r.table r.size l.progress;
  stats = record (l.stats) { success_rows = l.stats.success_rows + r.size };
}
count_rows BatchStatus.failed b r l = record l {
  progress = progress_fail r.table r.size l.progress;
  stats = record (l.stats) {
    fail_rows = l.stats.fail_rows + r.size;
    errors = l.stats.errors ++ batch_failed r.table b.batch_no r.error ∷ [];
  };
}

-- The body of the loop over `batch_result["tables"]`.
unfoldable pub record_table : BatchResult → Ledger → TableResult → Ledger
unfolding log_of count_rows
record_table b l r =
    count_rows r.status b r (record l { batch_logs = l.batch_logs ++ log_of b r ∷ [] })

unfoldable pub record_tables : BatchResult → Ledger → List TableResult → Ledger
record_tables b l [] = l
record_tables b l (r ∷ rs) = record_tables b (record_table b l r) rs

unfoldable pub record_rollbacks : BatchResult → Ledger → List Rollback → Ledger
record_rollbacks b l [] = l
record_rollbacks b l (r ∷ rs) =
    record_rollbacks b
      (record l {
        rollback_logs =
            l.rollback_logs
            ++ record {
              entry = r;
              batch_no = b.batch_no;
              round_no = b.round_no;
              rolled_back = false;
            }
              ∷ [];
      })
      rs

-- `_record_batch_result`
unfoldable pub record_batch_result : BatchResult → Ledger → Ledger
unfolding record_table record_tables record_rollbacks
record_batch_result b l = record_rollbacks b (record_tables b l b.tables) b.rollbacks

-- FAIL_RATE_THRESHOLD as a fraction.
pub record Rate : Type 0 where
  pub num : ℕ
  pub den : ℕ

-- `_fail_rate_exceeded`: `fail_rows / total > num / den`, with the fractions cleared.
unfoldable pub fail_rate_exceeded : Rate → ℕ → ℕ → Bool
fail_rate_exceeded rate success_rows fail_rows =
    if ltb 0 (success_rows + fail_rows)
    then ltb (rate.num * (success_rows + fail_rows)) (fail_rows * rate.den)
    else false
