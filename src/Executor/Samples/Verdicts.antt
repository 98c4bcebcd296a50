-- ===== src/Executor/Samples/Verdicts.antt =====
-- The books, the verdicts and the retries, at small inputs.
use data_factory.Base.{
  ◌≡◌, refl, false, none, some, List, [], ◌∷◌, if◌then◌else◌, string_eq, sum_by, arith,
}
use data_factory.Base.Count.{count}
use data_factory.Executor.Types.{BatchStatus, TableResult, BatchResult, Stats, new_stats}
use data_factory.Executor.Progress.{Phase}
use data_factory.Executor.Record.{BatchLog, Ledger, Rate, record_batch_result}
use data_factory.Executor.Record.Accounts.{IsBooked, record_batch_result-IsBooked}
use data_factory.Executor.Final.{rows_verdict}
use data_factory.Executor.Recount.{recount_verdict, recount_verdict-rows_verdict, log_key_eq}
use data_factory.Executor.Retry.{
  GroupKey, group_key_eq, retry_groups, tables_at, wanted, log_at, count-retry_groups,
}

abbrev done : TableResult
done = record {
  table = "order";
  status = BatchStatus.success;
  size = 500;
  retry_times = 1;
  error = none;
}

abbrev lost : TableResult
lost = record {
  table = "item";
  status = BatchStatus.failed;
  size = 500;
  retry_times = 3;
  error = some "deadlock";
}

abbrev batch : BatchResult
batch = record {
  batch_no = 0;
  size = 500;
  round_no = none;
  drive_value = none;
  tables = done ∷ lost ∷ [];
  rollbacks = [];
}

abbrev empty_ledger : Ledger
empty_ledger = record {
  batch_logs = [];
  rollback_logs = [];
  progress = record {
    status = Phase.running;
    target_total = 1000;
    success_total = 0;
    fail_total = 0;
    table_count = 2;
    batch_size = 500;
    tables = [];
  };
  stats = new_stats;
}

empty-IsBooked : IsBooked empty_ledger
empty-IsBooked = record { success_total = refl; fail_total = refl }

record_batch_result-IsBooked_example : IsBooked (record_batch_result batch empty_ledger)
record_batch_result-IsBooked_example =
    record_batch_result-IsBooked batch empty_ledger empty-IsBooked

-- A quarter of the rows may fail.
abbrev rate : Rate
rate = record { num = 1; den = 4 }

abbrev two_rounds : List Stats
two_rounds = new_stats ∷ record new_stats { success_rows = 5; fail_rows = 2 } ∷ []

recount_verdict-rows_verdict_example :
    recount_verdict rate 900 100 ≡ rows_verdict rate 900 100 false
recount_verdict-rows_verdict_example = recount_verdict-rows_verdict rate (omega arith) 900 100

abbrev failed_log : BatchLog
failed_log = record {
  table_name = "item";
  batch_no = 0;
  batch_size = 500;
  status = BatchStatus.failed;
  retry_times = 3;
  error_msg = some "deadlock";
  round_no = none;
  drive_value = none;
}

abbrev good_log : BatchLog
good_log = record failed_log { status = BatchStatus.success; error_msg = none }

abbrev first_batch : GroupKey
first_batch = record { round_no = none; batch_no = 0 }

-- The failure that a later log makes good is run again.
count-retry_groups_example :
    count "item" (tables_at first_batch (retry_groups (failed_log ∷ good_log ∷ [])))
    ≡ sum_by (λ g. if wanted g then log_at first_batch "item" g else 0) (failed_log ∷ good_log ∷ [])
count-retry_groups_example = count-retry_groups first_batch "item" (failed_log ∷ good_log ∷ [])
