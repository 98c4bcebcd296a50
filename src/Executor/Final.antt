-- ===== src/Executor/Final.antt =====
-- backend/app/engine/executor.py: `_finalize_task`, `_mark_task_failed` and `_build_result`.
use data_factory.Base.{
  ℕ, ◌+◌, ◌*◌, ◌≤◌, ◌<◌, ◌≡◌, ◌↔◌, refl, String, Bool, true, false, Option, none, some, List, [],
  ◌∷◌, ◌++◌, ◌==◌, ltb, leb, if◌then◌else◌, sum_by, any, keep, length, is_empty, arith,
}
use data_factory.Base.Text.{cut}
use data_factory.Executor.Types.{TaskStatus, Stats, StatError, nothing_run}
use data_factory.Executor.Progress.{Progress, write_final_progress, Phase}
use data_factory.Executor.Record.{Rate, fail_rate_exceeded}

-- What `error_msg` of a task holds: a line of the statistics, or a text.
pub data TaskError : Type 0 where
  line : StatError → TaskError
  message : String → TaskError

-- A row of df_exec_task, without its times.
pub record TaskRow : Type 0 where
  pub status : TaskStatus
  pub target_count : ℕ
  pub success_count : ℕ
  pub fail_count : ℕ
  pub error_msg : Option TaskError

-- The part of a row of df_case that a run updates. `last_exec_status` is 1, 2 or 3.
pub record CaseRow : Type 0 where
  pub last_exec_status : ℕ
  pub exec_count : ℕ

abbrev pub success_total : List Stats → ℕ
success_total ss = sum_by (λ s. s.success_rows) ss

abbrev pub fail_total : List Stats → ℕ
fail_total ss = sum_by (λ s. s.fail_rows) ss

abbrev pub any_stopped : List Stats → Bool
any_stopped ss = any (λ s. s.stopped) ss

errors_of : List Stats → List StatError
errors_of [] = []
errors_of (s ∷ ss) = s.errors ++ errors_of ss

-- The verdict by the rows, of a normal run.
unfoldable pub rows_verdict : Rate → (success_rows fail_rows : ℕ) → (stopped : Bool) → TaskStatus
unfolding fail_rate_exceeded
rows_verdict rate success_rows fail_rows stopped =
    if success_rows + fail_rows == 0
    then TaskStatus.failed
    else if fail_rows == 0
    then TaskStatus.success
    else if (if stopped then true else fail_rate_exceeded rate success_rows fail_rows)
    then TaskStatus.failed
    else TaskStatus.partial

failed_rounds : List Stats → ℕ
failed_rounds ss = length (keep (λ s. ltb 0 s.fail_rows) ss)

-- The verdict by the rounds, of a run over a driver's values.
pub rounds_verdict : ℕ → ℕ → TaskStatus
rounds_verdict total_rounds failed =
    if failed == 0
    then TaskStatus.success
    else if leb total_rounds failed
    then TaskStatus.failed
    else TaskStatus.partial

-- `total_rounds` is given in iterate mode.
unfoldable pub verdict : Rate → Option ℕ → List Stats → TaskStatus
unfolding rows_verdict rounds_verdict failed_rounds
verdict rate (some total_rounds) ss = rounds_verdict total_rounds (failed_rounds ss)
verdict rate none ss = rows_verdict rate (success_total ss) (fail_total ss) (any_stopped ss)

-- A normal run that did nothing has an error of its own, if there is no other.
final_errors : Option ℕ → List Stats → List StatError
unfolding errors_of
final_errors (some total_rounds) ss = errors_of ss
final_errors none ss =
    if success_total ss + fail_total ss == 0
    then (if is_empty (errors_of ss) then nothing_run ∷ [] else errors_of ss)
    else errors_of ss

first_error : Option TaskError → List StatError → Option TaskError
first_error old [] = old
first_error old (e ∷ es) = some (line e)

is_success : TaskStatus → Bool
is_success TaskStatus.success = true
is_success _ = false

case_status : TaskStatus → ℕ
case_status TaskStatus.success = 1
case_status TaskStatus.partial = 3
case_status _ = 2

finish_case : TaskStatus → Option CaseRow → Option CaseRow
unfolding case_status
finish_case final none = none
finish_case final (some c) =
    some (record { last_exec_status = case_status final; exec_count = c.exec_count + 1 })

-- What `_finalize_task` writes: the task, its case, if it is still there, and the progress.
pub record Finished : Type 0 where
  pub task : TaskRow
  pub case : Option CaseRow
  pub progress : Progress

-- `_finalize_task`
unfoldable pub finalize_task :
    Rate → Option ℕ → List Stats → TaskRow → Option CaseRow → Progress → Finished
unfolding verdict final_errors first_error is_success finish_case write_final_progress
finalize_task rate total_rounds ss task case progress =
    let final = verdict rate total_rounds ss in
    record {
      task = record {
        status = final;
        target_count = task.target_count;
        success_count = success_total ss;
        fail_count = fail_total ss;
        error_msg =
            if is_success final
            then task.error_msg
            else first_error task.error_msg (final_errors total_rounds ss);
      };
      case = finish_case final case;
      progress = write_final_progress final progress;
    }

-- `_mark_task_failed`: the progress is only touched if there is one.
unfoldable pub mark_task_failed : String → TaskRow → Option Progress → TaskRow × Option Progress
mark_task_failed text task progress = (
  record task { status = TaskStatus.failed; error_msg = some (message (cut 2000 text)) },
  elim progress [ none ↦ none | some p ↦ some (record p { status = Phase.failed }) ],
)

-- The conditions for each verdict of a normal run.
pub rows_verdict_iff :
    (rate : Rate) (success_rows fail_rows : ℕ) (stopped : Bool)
    → ((rows_verdict rate success_rows fail_rows stopped ≡ TaskStatus.success)
        ↔ ((0 < success_rows) × (fail_rows ≡ 0)))
      × ((rows_verdict rate success_rows fail_rows stopped ≡ TaskStatus.partial) ↔ (
          (0 < fail_rows)
          × (stopped ≡ false)
          × (fail_rows * rate.den ≤ rate.num * (success_rows + fail_rows))))
unfolding rows_verdict
rows_verdict_iff rate success_rows fail_rows stopped =
    ((λ h. ground arith, λ h. ground arith), (λ h. ground arith, λ h. ground arith))

failed_rounds-fail_total : (ss : List Stats) → (failed_rounds ss ≡ 0) ↔ (fail_total ss ≡ 0)
unfolding failed_rounds
failed_rounds-fail_total [] = (λ h. refl, λ h. refl)
failed_rounds-fail_total (s ∷ ss) = (
  λ h. ground (arith, failed_rounds-fail_total ss),
  λ h. ground (arith, failed_rounds-fail_total ss),
)

-- A run over a driver's values, or a normal run that did something, is a success when no row failed, and only then.
pub fail_total-verdict :
    (rate : Rate) (total_rounds : Option ℕ) (ss : List Stats)
    → (total_rounds ≡ none → 0 < success_total ss + fail_total ss)
    → (verdict rate total_rounds ss ≡ TaskStatus.success) ↔ (fail_total ss ≡ 0)
unfolding verdict rows_verdict rounds_verdict
fail_total-verdict rate none ss some_rows =
    (λ h. ground (arith, some_rows refl), λ h. ground (arith, some_rows refl))
fail_total-verdict rate (some n) ss some_rows = (
  λ h. ground (arith, failed_rounds-fail_total ss),
  λ h. ground (arith, failed_rounds-fail_total ss),
)
