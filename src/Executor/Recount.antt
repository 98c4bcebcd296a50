-- ===== src/Executor/Recount.antt =====
-- backend/app/engine/executor.py: `_latest_batch_logs`, `_reset_progress_for_retry` and
-- `_recount_finalize`, which judge a task by the last log of each batch and table.
use data_factory.Base.{
  ℕ, zero, suc, ◌+◌, ◌*◌, ◌<◌, ◌≡◌, ◌↔◌, String, Bool, true, false, Option, none, some, List, [],
  ◌∷◌, ◌++◌, ◌==◌, ltb, leb, if◌then◌else◌, sum_by, length, Eq, ◌=?◌, =?_iff, string_eq, nat_eq,
  arith,
}
use data_factory.Base.Text.{cut}
use data_factory.Base.Dict.{Dict, get, put, values, get-put}
use data_factory.Executor.Types.{TaskStatus, BatchStatus}
use data_factory.Executor.Progress.{Progress, TableProgress, Phase, write_final_progress}
use data_factory.Executor.Record.{Rate, fail_rate_exceeded, BatchLog}
use data_factory.Executor.Record.Accounts.{logged_success, logged_failed}
use data_factory.Executor.Final.{TaskRow, TaskError, message, rows_verdict}

-- The key (round_no, batch_no, table_name).
pub record LogKey : Type 0 where
  pub round_no : Option ℕ
  pub batch_no : ℕ
  pub table_name : String

unfoldable pub same_round : Option ℕ → Option ℕ → Bool
same_round none none = true
same_round (some a) (some b) = a == b
same_round _ _ = false

pub key_beq : LogKey → LogKey → Bool
key_beq a b =
    if same_round a.round_no b.round_no
    then (if a.batch_no == b.batch_no then a.table_name =? b.table_name else false)
    else false

pub key_beq_iff : (a b : LogKey) → (key_beq a b ≡ true) ↔ (a ≡ b)
unfolding key_beq same_round
key_beq_iff a b = (
  λ h. ground (arith, =?_iff a.table_name b.table_name),
  λ h. ground (arith, =?_iff a.table_name b.table_name),
)

instance abbrev pub log_key_eq : Eq LogKey
log_key_eq = record { beq = key_beq; beq_iff = key_beq_iff }

abbrev pub key_of : BatchLog → LogKey
key_of g = record { round_no = g.round_no; batch_no = g.batch_no; table_name = g.table_name }

latest_from : Dict LogKey BatchLog → List BatchLog → Dict LogKey BatchLog
latest_from d [] = d
latest_from d (g ∷ gs) = latest_from (put (key_of g) g d) gs

-- `_latest_batch_logs`: a later log replaces an earlier one in its place.
pub latest_batch_logs : List BatchLog → Dict LogKey BatchLog
unfolding latest_from
latest_batch_logs logs = latest_from [] logs

abbrev pub rows_with : (BatchLog → ℕ) → List BatchLog → ℕ
rows_with f logs = sum_by f (values (latest_batch_logs logs))

-- The verdict of `_recount_finalize`.
pub recount_verdict : Rate → (success_rows fail_rows : ℕ) → TaskStatus
unfolding fail_rate_exceeded
recount_verdict rate success_rows fail_rows =
    if (if fail_rows == 0 then ltb 0 success_rows else false)
    then TaskStatus.success
    else if (if success_rows == 0 then true else fail_rate_exceeded rate success_rows fail_rows)
    then TaskStatus.failed
    else TaskStatus.partial

first_failed : List BatchLog → Option BatchLog
first_failed [] = none
first_failed (g ∷ gs) =
    let rest = first_failed gs in
    elim g.status [ BatchStatus.failed ↦ some g | BatchStatus.success ↦ rest ]

log_error : Option String → String
log_error none = ""
log_error (some s) = s

recount_error : TaskStatus → Option TaskError → List BatchLog → Option TaskError
unfolding first_failed log_error
recount_error TaskStatus.success old logs = none
recount_error _ old logs = elim (first_failed logs) [
  | none ↦ old
  | some g ↦ some (message (cut 2000 (log_error g.error_msg)))
]

-- The rows of one table.
abbrev pub table_rows : (BatchLog → ℕ) → String → List BatchLog → ℕ
table_rows f table logs = sum_by (λ g. if g.table_name =? table then f g else 0) logs

recount_phase : ℕ → ℕ → ℕ → Phase
recount_phase target done lost =
    if leb target done then Phase.success else if ltb 0 lost then Phase.failed else Phase.running

recount_tables :
    ℕ → List BatchLog → List String → Dict String TableProgress → Dict String TableProgress
unfolding recount_phase
recount_tables target logs [] d = d
recount_tables target logs (t ∷ ts) d =
    let done = table_rows logged_success t logs in
    let lost = table_rows logged_failed t logs in
    recount_tables target logs ts (
      put t
        (record {
          target = target;
          success = done;
          failed = lost;
          status = recount_phase target done lost;
        })
        d)

-- `_recount_finalize`
pub recount_finalize : Rate → List String → List BatchLog → TaskRow → Progress → TaskRow × Progress
unfolding recount_verdict recount_error recount_tables
recount_finalize rate insert_order logs task progress =
    let last = values (latest_batch_logs logs) in
    let success_rows = sum_by logged_success last in
    let fail_rows = sum_by logged_failed last in
    let final = recount_verdict rate success_rows fail_rows in
    (
      record task {
        status = final;
        success_count = success_rows;
        fail_count = fail_rows;
        error_msg = recount_error final task.error_msg last;
      },
      write_final_progress final (record progress {
        success_total = success_rows;
        fail_total = fail_rows;
        tables = recount_tables task.target_count last insert_order progress.tables;
      }),
    )

reset_tables :
    ℕ → List BatchLog → List String → Dict String TableProgress → Dict String TableProgress
reset_tables target logs [] d = d
reset_tables target logs (t ∷ ts) d =
    let done = table_rows logged_success t logs in
    reset_tables target logs ts (
      put t
        (record {
          target = target;
          success = done;
          failed = 0;
          status = (if leb target done then Phase.success else Phase.running);
        })
        d)

-- `_reset_progress_for_retry`
pub reset_progress_for_retry : ℕ → ℕ → List String → List BatchLog → Progress → Progress
unfolding reset_tables
reset_progress_for_retry per_table_target batch_size insert_order logs progress =
    let last = values (latest_batch_logs logs) in
    record {
      status = Phase.running;
      target_total = per_table_target * length insert_order;
      success_total = sum_by logged_success last;
      fail_total = 0;
      table_count = length insert_order;
      batch_size = batch_size;
      tables = reset_tables per_table_target last insert_order progress.tables;
    }

all_failed :
    (num den fail_rows : ℕ) → num < den → 0 < fail_rows → num * (0 + fail_rows) < fail_rows * den
all_failed num den fail_rows below some_failed = grind arith

-- With a threshold below 1 the recount judges rows as the end of a run does that was not stopped.
pub recount_verdict-rows_verdict :
    (rate : Rate)
    → rate.num < rate.den
    → (success_rows fail_rows : ℕ)
    → recount_verdict rate success_rows fail_rows ≡ rows_verdict rate success_rows fail_rows false
unfolding recount_verdict rows_verdict
recount_verdict-rows_verdict rate below zero zero = ground arith
recount_verdict-rows_verdict rate below zero (suc f) =
    ground (arith, all_failed rate.num rate.den (suc f) below (omega arith))
recount_verdict-rows_verdict rate below (suc s) fail_rows = ground arith

get-latest_from :
    (k : LogKey) (g : BatchLog) (logs : List BatchLog) (d : Dict LogKey BatchLog)
    → get k (latest_from d (logs ++ g ∷ []))
      ≡ (if key_of g =? k then some g else get k (latest_from d logs))
unfolding latest_from
get-latest_from k g [] d = get-put (key_of g) k g d
get-latest_from k g (x ∷ logs) d = get-latest_from k g logs (put (key_of x) x d)

-- One more log is the one that counts for its key, and the other keys keep theirs.
pub get-latest_batch_logs :
    (k : LogKey) (g : BatchLog) (logs : List BatchLog)
    → get k (latest_batch_logs (logs ++ g ∷ []))
      ≡ (if key_of g =? k then some g else get k (latest_batch_logs logs))
unfolding latest_batch_logs
get-latest_batch_logs k g logs = get-latest_from k g logs []
