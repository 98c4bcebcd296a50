-- ===== src/Executor/Execute/Settled.antt =====
-- `execute_case_task`: what each reply says of the task and its rows.
use data_factory.Base.{
  ℕ, ◌+◌, ◌*◌, ◌<◌, ◌≡◌, ◌↔◌, refl, String, Option, none, some, List, ◌⊎◌, inl, inr, length,
  Option-cases, arith,
}
use data_factory.Base.Result.{Result, ok, err}
use data_factory.CaseConfig.{Driver}
use data_factory.Executor.Types.{TaskStatus, BatchResult, Stats}
use data_factory.Executor.Batching.{Job, calc_batch_size, calc_batch_size-pos}
use data_factory.Executor.Record.{Ledger}
use data_factory.Executor.Pool.Runs.{Covers}
use data_factory.Executor.Final.{TaskRow, finalize_task, mark_task_failed, fail_total-verdict}
use data_factory.Executor.Task.{
  Settings, NormalMode, Rounds, NormalMode-books, NormalMode-accounted, Rounds-accounted,
}
use data_factory.Executor.Execute.{
  Reply, skipped, prepare_failed, run_failed, crashed, finished, World, Prepared, Executes, skips,
  not_prepared, normal_fails, ends, Ran, normal_ran, iterated, crashes, crashes_late, mark_running,
  finish, calibrated, iterate_target, iterate_start,
}

abbrev pub table_count_of : Result String Prepared → ℕ
table_count_of prepare = elim prepare [ err _ ↦ 0 | ok p ↦ length p.insert_order ]

-- What a reply says of the rows before and after, for `tables` tables.
pub Settles : ℕ → Reply → World → World → Type 0
Settles tables (skipped status) w z = (z ≡ w) × (status ≡ w.task.status)
Settles tables (prepare_failed e) w z =
    (z.task.status ≡ TaskStatus.failed)
    × (z.task.success_count ≡ w.task.success_count)
    × (z.ledger ≡ w.ledger)
Settles tables (run_failed e) w z =
    (z.task.status ≡ TaskStatus.failed) × (w.task.target_count ≡ 0) × (z.ledger ≡ w.ledger)
Settles tables (crashed e) w z =
    (z.task.status ≡ TaskStatus.failed)
    × (((z.task.success_count ≡ w.task.success_count)
          × (z.task.fail_count ≡ w.task.fail_count)
          × (z.case ≡ w.case))
        ⊎ (z.task.success_count + z.task.fail_count ≡ z.task.target_count * tables))
Settles tables (finished status) w z =
    (z.task.status ≡ status)
    × (z.task.success_count + z.task.fail_count ≡ z.task.target_count * tables)
    × ((status ≡ TaskStatus.success) ↔ (z.task.fail_count ≡ 0))

some_rows : {a k n : ℕ} → 0 < n → 0 < k → a ≡ n * k → 0 < a
some_rows p q e = grind arith

normal_run-Settles :
    (s : Settings) (outcome : Job → BatchResult) (p : Prepared) (w : World) (ss : List Stats)
    (m : Ledger)
    → 0 < s.max_workers
    → 0 < length p.insert_order
    → Covers (length p.insert_order) outcome
    → NormalMode s outcome p.insert_order w.task.target_count w.ledger (ok ss) m
    → Settles
        (length p.insert_order)
        (finished (finish s none ss (mark_running w.task) m w).task.status)
        w
        (finish s none ss (mark_running w.task) m w)
unfolding Settles finalize_task
normal_run-Settles s outcome p w ss m workers some_tables covers run =
    let h =
      NormalMode-accounted s outcome p.insert_order w.task.target_count w.ledger m ss workers covers
        run in
    (refl, h.1, fail_total-verdict s.rate none ss (λ _. some_rows (h.0) some_tables (h.1)))

iterate_run-Settles :
    (s : Settings) (outcome : ℕ → Job → BatchResult) (p : Prepared) (d : Driver) (w : World)
    (ss : List Stats) (m : Ledger)
    → 0 < s.max_workers
    → ((i : ℕ) → Covers (length p.insert_order) (outcome i))
    → Rounds s outcome
        (length p.insert_order)
        d.rows_per_value
        (calc_batch_size s.batch_size_override d.rows_per_value)
        (length d.drive_values)
        0
        0
        (iterate_start s p d w.ledger)
        ss
        m
    → Settles
        (length p.insert_order)
        (finished
          (finish s
            (some (length d.drive_values))
            ss
            (record (mark_running w.task) { target_count = iterate_target d })
            m
            w).task.status)
        w
        (finish s
          (some (length d.drive_values))
          ss
          (record (mark_running w.task) { target_count = iterate_target d })
          m
          w)
unfolding Settles finalize_task
iterate_run-Settles s outcome p d w ss m workers covers run =
    let h =
      Rounds-accounted s outcome (length p.insert_order) d.rows_per_value
        (calc_batch_size s.batch_size_override d.rows_per_value) workers
        (calc_batch_size-pos s.batch_size_override d.rows_per_value) covers run in
    (
      refl,
      grind (arith, h),
      fail_total-verdict s.rate (some (length d.drive_values)) ss (λ e. ground arith),
    )

calibrated-counts :
    (p : Prepared) (t : TaskRow)
    → ((calibrated p t).success_count ≡ t.success_count)
      × ((calibrated p t).fail_count ≡ t.fail_count)
calibrated-counts p t = elim (Option-cases p.iterate_driver) [
  | inl e ↦ rw e (refl, refl)
  | inr (d, e) ↦ rw e (refl, refl)
]

crashed-counts :
    (p : Prepared) (u t : TaskRow)
    → (t ≡ u) ⊎ (t ≡ calibrated p u)
    → (t.success_count ≡ u.success_count) × (t.fail_count ≡ u.fail_count)
crashed-counts p u t (inl e) = rw e (refl, refl)
crashed-counts p u t (inr e) = rw e (calibrated-counts p u)

module _ (s : Settings) (prepare : Result String Prepared) (outcome : ℕ → Job → BatchResult)
    (workers : 0 < s.max_workers)
    (tables : (p : Prepared) → prepare ≡ ok p → 0 < length p.insert_order)
    (covers : (p : Prepared)
      → prepare ≡ ok p
      → (i : ℕ) → Covers (length p.insert_order) (outcome i)) where
  Ran-Settles :
      {w : World} {rounds : Option ℕ} {ss : List Stats} {t : TaskRow} {m : Ledger}
      → Ran s prepare outcome w rounds ss t m
      → Settles
          (table_count_of prepare)
          (finished (finish s rounds ss t m w).task.status)
          w
          (finish s rounds ss t m w)
  Ran-Settles (normal_ran {w = w} {p = p} {ss = ss} {m = m} can is_ok no_driver run) =
      rw is_ok
        (normal_run-Settles s (outcome 0) p w ss m workers (tables p is_ok) (covers p is_ok 0) run)
  Ran-Settles (iterated {w = w} {p = p} {d = d} {ss = ss} {m = m} can is_ok driver run) =
      rw is_ok (iterate_run-Settles s outcome p d w ss m workers (λ i. covers p is_ok i) run)

-- With at least one worker and one table, and batches that report each of their rows once for each
-- table, a run that returns leaves, under every schedule and whatever fails, a task in which each row of each table is
-- counted once, as a success or as a failure, and that is a success when no row failed and only
-- then. A task that may not start is left as it is. One whose preparation raises an error, or that
-- has no rows to make, is failed and records nothing. One that an exception ends is failed, and either its counts and
-- its case are those of before, or, when the exception comes after the counts are committed, each row of each table is
-- counted once.
pub Executes-Settles :
    (s : Settings) (prepare : Result String Prepared) (outcome : ℕ → Job → BatchResult)
    → 0 < s.max_workers
    → ((p : Prepared) → prepare ≡ ok p → 0 < length p.insert_order)
    → ((p : Prepared) → prepare ≡ ok p → (i : ℕ) → Covers (length p.insert_order) (outcome i))
    → {w z : World} {r : Reply} → Executes s prepare outcome w r z
    → Settles (table_count_of prepare) r w z
unfolding Settles mark_task_failed
Executes-Settles s prepare outcome workers tables covers (skips e) = (refl, refl)
Executes-Settles s prepare outcome workers tables covers (not_prepared reached can e) =
    (refl, refl, refl)
Executes-Settles s prepare outcome workers tables covers
      (crashes {w = w} {p = p} m t progress reached can is_ok target) =
    let counts = crashed-counts p (mark_running w.task) t target in
    (refl, inl (counts.0, counts.1, refl))
Executes-Settles s prepare outcome workers tables covers
      (crashes_late case progress reached ran _ _) =
    (refl, inr ((Ran-Settles s prepare outcome workers tables covers ran).1))
Executes-Settles s prepare outcome workers tables covers
      (normal_fails {w = w} {p = p} {e = e} {m = m} reached can is_ok no_driver run) =
    elim (NormalMode-books s (outcome 0) p.insert_order w.task.target_count w.ledger m (err e)
      workers (covers p is_ok 0) run) [ inl h ↦ (refl, h.0, h.1) | inr h ↦ ground (arith, h.1) ]
Executes-Settles s prepare outcome workers tables covers (ends ran) =
    Ran-Settles s prepare outcome workers tables covers ran
