-- ===== src/Executor/Samples/Schedules.antt =====
-- A run of two batches on a pool, recorded at one wake-up, and the theorems at it.
use data_factory.Base.{
  ◌+◌, ◌*◌, ◌≤◌, ◌<◌, ◌≡◌, refl, String, false, none, some, List, [], ◌∷◌, length, neither, to_left,
  ◌⊎◌, arith,
}
use data_factory.Base.Result.{Result, ok}
use data_factory.Executor.Types.{TaskStatus, BatchStatus, BatchResult, new_stats}
use data_factory.Executor.Progress.{Progress, Phase, init_progress}
use data_factory.Executor.Record.{
  Ledger, log_of, count_rows, record_table, record_tables, record_rollbacks, record_batch_result,
  fail_rate_exceeded,
}
use data_factory.Executor.Record.Accounts.{accounted}
use data_factory.Executor.Batching.{
  Job, shards, shards_from, jobs_of, range_from, calc_batch_size, range,
}
use data_factory.Executor.Pool.{
  Future, Pool, can_submit, record_done, wake_up, nothing, Step, submit, wake, Steps, here, next,
  start, IsOver, job_rows,
}
use data_factory.Executor.Pool.Runs.{
  Covers, steps, run_offsets_ends, run_offsets-limit, run_offsets-accounted,
}
use data_factory.Executor.RunAll.{none_left, goes_on, Plan, RunAll, run_all, RunAll-accounted}
use data_factory.Executor.Task.{Settings, plan_of, one_pass}
use data_factory.Executor.Execute.Settled.{Settles, Executes-Settles}
use data_factory.Executor.Execute.{
  World, Prepared, can_start, Executes, ends, normal_ran, finish, mark_running, finished,
}

abbrev settings : Settings
settings = record {
  batch_size_override = some 2;
  max_workers = 1;
  rate = record { num = 1; den = 10 };
  shard_rows = 100;
  rollback_capture_max_rows = 1000;
}

abbrev outcome : Job → BatchResult
outcome j = record {
  batch_no = j.batch_no;
  size = j.size;
  round_no = none;
  drive_value = none;
  tables =
      record {
        table = "order";
        status = BatchStatus.success;
        size = j.size;
        retry_times = 0;
        error = none;
      }
      ∷ [];
  rollbacks = [];
}

outcome-Covers : Covers 1 outcome
outcome-Covers j = omega arith

abbrev first : Job
first = record { batch_no = 0; size = 2 }

abbrev second : Job
second = record { batch_no = 1; size = 1 }

abbrev jobs : List Job
jobs = first ∷ second ∷ []

abbrev blank : Progress
blank = record {
  status = Phase.pending;
  target_total = 0;
  success_total = 0;
  fail_total = 0;
  table_count = 0;
  batch_size = 0;
  tables = [];
}

abbrev ledger_with : Progress → Ledger
ledger_with p = record { batch_logs = []; rollback_logs = []; progress = p; stats = new_stats }

abbrev future : Job → Future
future j = record { job = j; cancelled = false }

-- The pool with both batches submitted, and after both are done.
abbrev one_submitted : Progress → Pool
one_submitted p = record (start jobs (ledger_with p)) {
  waiting = second ∷ [];
  pending = future first ∷ [];
}

abbrev both_submitted : Progress → Pool
both_submitted p = record (start jobs (ledger_with p)) {
  waiting = [];
  pending = future first ∷ future second ∷ [];
}

abbrev both_done : Progress → Pool
both_done p =
    wake_up settings.rate outcome (future first ∷ future second ∷ []) [] [] (both_submitted p)

schedule : (p : Progress) → Steps settings.rate 4 outcome (start jobs (ledger_with p)) (both_done p)
unfolding can_submit
schedule p = next (submit (start jobs (ledger_with p)) first (second ∷ []) refl refl) (
    next (submit (one_submitted p) second [] refl refl) (
      next
        (wake (both_submitted p) (future first ∷ future second ∷ []) [] [] refl (λ e. cc)
          (to_left (to_left neither)) nothing)
        here))

schedule-IsOver : (p : Progress) → IsOver 4 (both_done p)
unfolding can_submit wake_up record_done record_batch_result record_tables record_table
    record_rollbacks count_rows log_of fail_rate_exceeded
schedule-IsOver p = record { no_submit = refl; no_pending = refl }

goes_to_the_end : (p : Progress) → (both_done p).stop_submit ≡ false
unfolding wake_up record_done record_batch_result record_tables record_table record_rollbacks
    count_rows log_of fail_rate_exceeded
goes_to_the_end p = refl

run_offsets-accounted_example :
    (accounted (both_done blank).ledger ≤ accounted (ledger_with blank) + 1 * job_rows jobs)
    × ((both_done blank).stop_submit ≡ false
        → accounted (both_done blank).ledger ≡ accounted (ledger_with blank) + 1 * job_rows jobs)
run_offsets-accounted_example =
    run_offsets-accounted 1 outcome outcome-Covers settings.rate 4 (omega arith) jobs
      (ledger_with blank) (schedule blank) (schedule-IsOver blank)

run_offsets_ends_example :
    (steps settings.rate 4 outcome (schedule blank) ≤ 2 * length jobs)
    × (IsOver 4 (both_done blank) ⊎ ((q : Pool) × Step settings.rate 4 outcome (both_done blank) q))
run_offsets_ends_example =
    run_offsets_ends settings.rate 4 outcome jobs (ledger_with blank) (schedule blank)

run_offsets-limit_example : length (both_done blank).pending ≤ 4
run_offsets-limit_example =
    run_offsets-limit settings.rate 4 outcome jobs (ledger_with blank) (schedule blank)

abbrev plan : Plan
plan = plan_of settings 2 3 1 0

two_batches : (p : Progress) → RunAll plan outcome (ledger_with p) false (both_done p).ledger
unfolding plan_of shards shards_from jobs_of range range_from
two_batches p =
    run_all (goes_on (both_done p) (schedule p) (schedule-IsOver p) (goes_to_the_end p) none_left)

RunAll-accounted_example : accounted (both_done blank).ledger ≡ plan.row_count * plan.table_count
unfolding plan_of
RunAll-accounted_example =
    RunAll-accounted plan outcome (ledger_with blank) (both_done blank).ledger false (omega arith)
      (omega arith) outcome-Covers refl (two_batches blank)

abbrev order : List String
order = "order" ∷ []

abbrev world : World
world = record {
  task = record {
    status = TaskStatus.pending;
    target_count = 3;
    success_count = 0;
    fail_count = 0;
    error_msg = none;
  };
  case = some (record { last_exec_status = 2; exec_count = 6 });
  progress = none;
  ledger = ledger_with blank;
}

abbrev prepared : Prepared
prepared = record { insert_order = order; iterate_driver = none }

abbrev ends_with : Ledger
ends_with = (both_done (init_progress 3 2 order blank)).ledger

abbrev final_world : World
final_world = finish settings none (ends_with.stats ∷ []) (mark_running world.task) ends_with world

normal_run :
    Executes settings
      (ok prepared)
      (λ _. outcome)
      world
      (finished final_world.task.status)
      final_world
unfolding calc_batch_size can_start
normal_run = ends (
    normal_ran refl refl refl
      (one_pass (omega arith) (two_batches (init_progress 3 2 order blank))))

same_prepared :
    (p : Prepared) → ◌≡◌ {A = Result String Prepared} (ok prepared) (ok p) → p ≡ prepared
same_prepared p e = cc

has_table :
    (p : Prepared)
    → ◌≡◌ {A = Result String Prepared} (ok prepared) (ok p)
    → 0 < length p.insert_order
has_table p e = rw (same_prepared p e) (omega arith)

prepared-Covers :
    (p : Prepared)
    → ◌≡◌ {A = Result String Prepared} (ok prepared) (ok p)
    → Covers (length p.insert_order) outcome
prepared-Covers p e = rw (same_prepared p e) outcome-Covers

Executes-Settles_example : Settles 1 (finished final_world.task.status) world final_world
Executes-Settles_example =
    Executes-Settles settings (ok prepared) (λ _. outcome) (omega arith) has_table
      (λ p e i. prepared-Covers p e) normal_run
