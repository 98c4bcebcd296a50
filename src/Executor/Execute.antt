-- ===== src/Executor/Execute.antt =====
-- backend/app/engine/executor.py: `execute_case_task`, from a row of df_exec_task to the row it leaves.
-- `_prepare_context` is a given result; a case of type "redis" is left out.
pub mod Settled
use data_factory.Base.{
  ℕ, ◌+◌, ◌*◌, ◌<◌, ◌≡◌, ◌↔◌, refl, String, Bool, true, false, Option, none, some, List, inl, inr,
  ◌⊎◌, if◌then◌else◌, length, Option-cases, arith,
}
use data_factory.Base.Result.{Result, ok, err}
use data_factory.Base.Text.{join}
use data_factory.CaseConfig.{Driver}
use data_factory.Executor.Types.{TaskStatus, BatchResult, Stats}
use data_factory.Executor.Batching.{Job, calc_batch_size, calc_batch_size-pos}
use data_factory.Executor.Progress.{Progress, init_progress}
use data_factory.Executor.Record.{Ledger}
use data_factory.Executor.Pool.Runs.{Covers}
use data_factory.Executor.Final.{
  TaskRow, CaseRow, finalize_task, mark_task_failed, fail_total-verdict,
}
use data_factory.Executor.Task.{
  Settings, NormalMode, Rounds, NormalMode-books, NormalMode-accounted, Rounds-accounted,
}

-- What the caller is told.
pub data Reply : Type 0 where
  skipped : TaskStatus → Reply
  prepare_failed : String → Reply
  run_failed : String → Reply
  crashed : String → Reply
  finished : TaskStatus → Reply

-- The rows that a run reads and writes.
pub record World : Type 0 where
  pub task : TaskRow
  pub case : Option CaseRow
  pub progress : Option Progress
  pub ledger : Ledger

-- The part of the context that the two modes read.
pub record Prepared : Type 0 where
  pub insert_order : List String
  pub iterate_driver : Option Driver

-- `task.status in (TASK_STATUS_PENDING, TASK_STATUS_RETRYING)`
unfoldable pub can_start : TaskStatus → Bool
can_start TaskStatus.pending = true
can_start TaskStatus.retrying = true
can_start _ = false

-- "标记执行中"
abbrev pub mark_running : TaskRow → TaskRow
mark_running t = record t { status = TaskStatus.running; error_msg = none }

-- `_mark_task_failed`, on the rows of a run. It passes over an exception of the progress's store:
-- `reached` tells whether the store answers.
abbrev pub fail_with : (reached : Bool) → String → World → World
fail_with reached text w =
    let r = mark_task_failed text w.task w.progress in
    record w { task = r.0; progress = if reached then r.1 else w.progress }

-- `execute_iterate_mode` sets the target of the task.
abbrev pub calibrated : Prepared → TaskRow → TaskRow
calibrated p t = elim p.iterate_driver [
  | none ↦ t
  | some d ↦ record t { target_count = d.rows_per_value * length d.drive_values }
]

-- What `_finalize_task` leaves.
abbrev pub finish : Settings → Option ℕ → List Stats → TaskRow → Ledger → World → World
finish s total_rounds ss task m w =
    let f = finalize_task s.rate total_rounds ss task w.case m.progress in
    record { task = f.task; case = f.case; progress = some (f.progress); ledger = m }

-- The target of a run over a driver's values.
abbrev pub iterate_target : Driver → ℕ
iterate_target d = d.rows_per_value * length d.drive_values

-- The ledger after the `_init_progress` of `execute_iterate_mode`.
abbrev pub iterate_start : Settings → Prepared → Driver → Ledger → Ledger
iterate_start s p d l = record l {
  progress =
      init_progress (iterate_target d) (calc_batch_size s.batch_size_override d.rows_per_value)
        p.insert_order l.progress;
}

module _ (s : Settings) (prepare : Result String Prepared) (outcome : ℕ → Job → BatchResult) where
  -- A mode that has returned its statistics, with what `_finalize_task` is given: the rounds in
  -- iterate mode, the statistics, the task and the books. A normal run's batches are those of round 0.
  pub data Ran : World → Option ℕ → List Stats → TaskRow → Ledger → Type 0 where
    normal_ran :
        {w : World} {p : Prepared} {ss : List Stats} {m : Ledger}
        → can_start w.task.status ≡ true
        → prepare ≡ ok p
        → p.iterate_driver ≡ none
        → NormalMode s (outcome 0) p.insert_order w.task.target_count w.ledger (ok ss) m
        → Ran w none ss (mark_running w.task) m
    iterated :
        {w : World} {p : Prepared} {d : Driver} {ss : List Stats} {m : Ledger}
        → can_start w.task.status ≡ true
        → prepare ≡ ok p
        → p.iterate_driver ≡ some d
        → Rounds s outcome
            (length p.insert_order)
            d.rows_per_value
            (calc_batch_size s.batch_size_override d.rows_per_value)
            (length d.drive_values)
            0
            0
            (iterate_start s p d w.ledger)
            ss
            m
        → Ran w
            (some (length d.drive_values))
            ss
            (record (mark_running w.task) { target_count = iterate_target d })
            m

  -- `execute_case_task` on a task that is there.
  pub data Executes : World → Reply → World → Type 0 where
    skips : {w : World} → can_start w.task.status ≡ false → Executes w (skipped w.task.status) w
    not_prepared :
        {w : World} {e : String} (reached : Bool)
        → can_start w.task.status ≡ true
        → prepare ≡ err e
        → Executes w (prepare_failed e) (fail_with reached (join "任务初始化失败: " e) w)
    normal_fails :
        {w : World} {p : Prepared} {e : String} {m : Ledger} (reached : Bool)
        → can_start w.task.status ≡ true
        → prepare ≡ ok p
        → p.iterate_driver ≡ none
        → NormalMode s (outcome 0) p.insert_order w.task.target_count w.ledger (err e) m
        → Executes w (run_failed e) (
            fail_with reached
              (join "执行异常: " e)
              (record w { task = mark_running w.task; ledger = m }))
    ends :
        {w : World} {rounds : Option ℕ} {ss : List Stats} {t : TaskRow} {m : Ledger}
        → Ran w rounds ss t m
        → Executes w (finished (finish s rounds ss t m w).task.status) (finish s rounds ss t m w)
    -- An exception out of a batch, or of a database, ends the run at any point of its books, before the
    -- counts are committed. The target may have been calibrated, and the progress started.
    crashes :
        {w : World} {p : Prepared} {e : String} (m : Ledger) (t : TaskRow)
        (progress : Option Progress) (reached : Bool)
        → can_start w.task.status ≡ true
        → prepare ≡ ok p
        → (t ≡ mark_running w.task) ⊎ (t ≡ calibrated p (mark_running w.task))
        → Executes w (crashed e) (
            fail_with reached
              (join "执行异常: " e)
              (record w { task = t; progress = progress; ledger = m }))
    -- An exception in `_finalize_task` after it has committed the counts: before the case is
    -- updated, or before or after the progress is.
    crashes_late :
        {w : World} {rounds : Option ℕ} {ss : List Stats} {t : TaskRow} {m : Ledger} {e : String}
        (case : Option CaseRow) (progress : Option Progress) (reached : Bool)
        → Ran w rounds ss t m
        → (case ≡ w.case) ⊎ (case ≡ (finish s rounds ss t m w).case)
        → (progress ≡ some m.progress) ⊎ (progress ≡ (finish s rounds ss t m w).progress)
        → Executes w (crashed e) (
            fail_with reached
              (join "执行异常: " e)
              (record (finish s rounds ss t m w) { case = case; progress = progress }))
