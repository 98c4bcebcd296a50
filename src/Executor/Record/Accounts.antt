-- ===== src/Executor/Record/Accounts.antt =====
-- What recording a batch's result adds to the logs, the statistics and the progress.
use data_factory.Base.{ℕ, ◌+◌, ◌≡◌, refl, List, [], ◌∷◌, sum_by, sum_by-append, arith}
use data_factory.Executor.Types.{TableResult, BatchResult, BatchStatus, Rollback}
use data_factory.Executor.Progress.{progress_success, progress_fail}
use data_factory.Executor.Record.{
  BatchLog, Ledger, log_of, record_table, record_tables, record_rollbacks, record_batch_result,
}

abbrev pub rows_of : List TableResult → ℕ
rows_of rs = sum_by (λ r. r.size) rs

-- The rows that are counted, as successes or as failures.
abbrev pub accounted : Ledger → ℕ
accounted l = l.stats.success_rows + l.stats.fail_rows

-- The rows of the logged batches with one status.
abbrev pub logged_success : BatchLog → ℕ
logged_success g = elim g.status [ BatchStatus.success ↦ g.batch_size | BatchStatus.failed ↦ 0 ]

abbrev pub logged_failed : BatchLog → ℕ
logged_failed g = elim g.status [ BatchStatus.success ↦ 0 | BatchStatus.failed ↦ g.batch_size ]

-- The totals in Redis are those of the batch logs.
pub record IsBooked (l : Ledger) : Type 0 where
  pub success_total : l.progress.success_total ≡ sum_by logged_success l.batch_logs
  pub fail_total : l.progress.fail_total ≡ sum_by logged_failed l.batch_logs

record_table-accounted :
    (b : BatchResult) (l : Ledger) (r : TableResult)
    → accounted (record_table b l r) ≡ accounted l + r.size
unfolding record_table
record_table-accounted b l r = ground arith

record_tables-accounted :
    (b : BatchResult) (l : Ledger) (rs : List TableResult)
    → accounted (record_tables b l rs) ≡ accounted l + rows_of rs
unfolding record_tables
record_tables-accounted b l [] = omega arith
record_tables-accounted b l (r ∷ rs) =
    omega (arith, record_tables-accounted b (record_table b l r) rs, record_table-accounted b l r)

record_rollbacks-stats :
    (b : BatchResult) (l : Ledger) (rs : List Rollback)
    → ((record_rollbacks b l rs).stats ≡ l.stats)
      × ((record_rollbacks b l rs).progress ≡ l.progress)
      × ((record_rollbacks b l rs).batch_logs ≡ l.batch_logs)
unfolding record_rollbacks
record_rollbacks-stats b l [] = (refl, refl, refl)
record_rollbacks-stats b l (r ∷ rs) = record_rollbacks-stats b _ rs

-- Each row of the result is counted once, as a success or as a failure.
pub record_batch_result-accounted :
    (b : BatchResult) (l : Ledger)
    → accounted (record_batch_result b l) ≡ accounted l + rows_of b.tables
unfolding record_batch_result
record_batch_result-accounted b l =
    rw ((record_rollbacks-stats b (record_tables b l b.tables) b.rollbacks).0)
      (record_tables-accounted b l b.tables)

record_table-IsBooked :
    (b : BatchResult) (l : Ledger) (r : TableResult) → IsBooked l → IsBooked (record_table b l r)
unfolding record_table progress_success progress_fail
record_table-IsBooked b l r h = record {
  success_total =
      ground (arith, h.success_total, sum_by-append logged_success l.batch_logs (log_of b r ∷ []));
  fail_total =
      ground (arith, h.fail_total, sum_by-append logged_failed l.batch_logs (log_of b r ∷ []));
}

record_tables-IsBooked :
    (b : BatchResult) (l : Ledger) (rs : List TableResult)
    → IsBooked l
    → IsBooked (record_tables b l rs)
unfolding record_tables
record_tables-IsBooked b l [] h = h
record_tables-IsBooked b l (r ∷ rs) h =
    record_tables-IsBooked b (record_table b l r) rs (record_table-IsBooked b l r h)

-- Recording a batch keeps the totals in Redis equal to those of the batch logs.
pub record_batch_result-IsBooked :
    (b : BatchResult) (l : Ledger) → IsBooked l → IsBooked (record_batch_result b l)
unfolding record_batch_result
record_batch_result-IsBooked b l h =
    let (same_stats, same_progress, same_logs) =
      record_rollbacks-stats b (record_tables b l b.tables) b.rollbacks in
    let kept = record_tables-IsBooked b l b.tables h in
    record {
      success_total = rw (same_progress, same_logs) kept.success_total;
      fail_total = rw (same_progress, same_logs) kept.fail_total;
    }
