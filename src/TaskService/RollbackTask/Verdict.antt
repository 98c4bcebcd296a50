-- ===== src/TaskService/RollbackTask/Verdict.antt =====
-- `rollback_exec_task`: what the final state of a rollback says of its logs.
use data_factory.Base.{
  ℕ, ◌+◌, ◌<◌, ◌≤◌, ◌≡◌, ◌≢◌, refl, ap, sym, ◌∙◌, Bool, true, false, not, some, List, [], ◌∷◌, ◌++◌,
  map, if◌then◌else◌, nat_eq, ◌=?◌, =?_refl, =?_iff, length, length-append, length-map, any, All,
  Bool-cases, ◌⊎◌, inl, inr, arith,
}
use mathlib.Core.Option.{some-injective}
use mathlib.Core.Path.{subst}
use data_factory.Base.Count.{
  count, contains, Distinct, count-append, length-le_of_count, contains-In,
}
use data_factory.Base.Result.{Result, ok, err}
use data_factory.Executor.World.{Fault}
use data_factory.TaskService.Types.{RollbackStatus, FailedLog, ExecTask, Log}
use data_factory.TaskService.RollbackTask.{
  Stores, RollbackRun, finished, Done, newest_first, flag, mark, rollback_log, fail_log, failed_log,
  process_log, process_logs, settle, fail_task, start, rollback_exec_task,
}

abbrev pub ids : List Log → List ℕ
ids ls = map (λ l. l.id) ls

Result-cases :
    {A : Type 0} (r : Result Fault A) → ((a : A) × (r ≡ ok a)) ⊎ ((e : Fault) × (r ≡ err e))
Result-cases (ok a) = inl (a, refl)
Result-cases (err e) = inr (e, refl)

module _ {W : Type 0} (s : Stores W) where
  -- A log either fails or has its flag committed.
  process_log-cases :
      (log : Log) (p : RollbackRun W)
      → ((f : FailedLog) × ((process_log s log p).failed_logs ≡ p.failed_logs ++ f ∷ [])
          × ((process_log s log p).rolled ≡ p.rolled))
        ⊎ (((process_log s log p).failed_logs ≡ p.failed_logs)
            × ((process_log s log p).rolled ≡ log.id ∷ p.rolled))
  unfolding process_log fail_log
  process_log-cases log p =
      let (r, keys, w) = rollback_log s log p.deleted_keys p.world in
      elim (Result-cases r) [
        | inr (e, x) ↦ inl (failed_log log e, rw (x, process_log) refl, rw (x, process_log) refl)
        | inl (n, x) ↦ elim (Result-cases (s.commit w).0) [
          | inr (e, y) ↦
              inl (failed_log log e, rw (x, y, process_log) refl, rw (x, y, process_log) refl)
          | inl (done, y) ↦ inr (rw (x, y, process_log) refl, rw (x, y, process_log) refl)
        ]
      ]

  process_logs-length :
      (ls : List Log) (p : RollbackRun W)
      → length (process_logs s ls p).failed_logs + length (process_logs s ls p).rolled
        ≡ length p.failed_logs + length p.rolled + length ls
  unfolding process_logs
  process_logs-length [] p = omega arith
  process_logs-length (l ∷ ls) p =
      let h = process_logs-length ls (process_log s l p) in
      elim (process_log-cases l p) [
        | inl (f, a, b) ↦
            omega (arith, h, ap length a, ap length b, length-append p.failed_logs (f ∷ []))
        | inr (a, b) ↦ omega (arith, h, ap length a, ap length b)
      ]

  process_logs-keeps :
      (ls : List Log) (p : RollbackRun W) (k : ℕ)
      → contains k p.rolled ≡ true
      → contains k (process_logs s ls p).rolled ≡ true
  unfolding process_logs
  process_logs-keeps [] p k h = h
  process_logs-keeps (l ∷ ls) p k h =
      process_logs-keeps ls (process_log s l p) k (elim (process_log-cases l p) [
        | inl (f, a, b) ↦ rw b h
        | inr (a, b) ↦ rw b (ground (arith, h))
      ])

  -- Without a failure, every log is rolled back.
  process_logs-clean :
      (ls : List Log) (p : RollbackRun W)
      → (process_logs s ls p).failed_logs ≡ []
      → (p.failed_logs ≡ []) × All (λ l. contains l.id (process_logs s ls p).rolled ≡ true) ls
  unfolding process_logs
  process_logs-clean [] p h = (h, tt)
  process_logs-clean (l ∷ ls) p h =
      let (none_yet, all) = process_logs-clean ls (process_log s l p) h in
      elim (process_log-cases l p) [
        | inl (f, a, b) ↦
            absurd
              (omega (arith, ap length a, ap length none_yet, length-append p.failed_logs (f ∷ [])))
        | inr (a, b) ↦ (
          sym a ∙ none_yet,
          (process_logs-keeps ls (process_log s l p) l.id (rw (b, =?_refl l.id) refl), all),
        )
      ]

ids-append : (xs ys : List Log) → ids (xs ++ ys) ≡ ids xs ++ ids ys
ids-append [] ys = refl
ids-append (x ∷ xs) ys = ap (λ (l : List ℕ). x.id ∷ l) (ids-append xs ys)

count-newest_first :
    (k : ℕ) (l : Log) (ls : List Log)
    → count k (ids (newest_first (l ∷ ls)))
      ≡ count k (ids (newest_first ls)) + (if l.rolled_back then 0 else if l.id =? k then 1 else 0)
unfolding newest_first
count-newest_first k l ls =
    let more = if l.rolled_back then [] else l ∷ [] in
    ap (count k) (ids-append (newest_first ls) more)
    ∙ count-append k (ids (newest_first ls)) (ids more)
    ∙ ap (λ (n : ℕ). count k (ids (newest_first ls)) + n) last
  where
    last :
        count k (ids (if l.rolled_back then [] else l ∷ []))
        ≡ (if l.rolled_back then 0 else if l.id =? k then 1 else 0)
    last = elim (Bool-cases l.rolled_back) [
      | inl hit ↦ rw hit refl
      | inr miss ↦ rw miss (ground arith)
    ]

count-newest_first_le : (k : ℕ) (ls : List Log) → count k (ids (newest_first ls)) ≤ count k (ids ls)
unfolding newest_first
count-newest_first_le k [] = omega arith
count-newest_first_le k (l ∷ ls) =
    ground (arith, count-newest_first k l ls, count-newest_first_le k ls)

All-append : (P : Log → Type 0) (xs ys : List Log) → All P (xs ++ ys) → All P xs × All P ys
All-append P [] ys h = (tt, h)
All-append P (x ∷ xs) ys (p, h) = let (a, b) = All-append P xs ys h in ((p, a), b)

mark_all :
    (done : List ℕ) (ls : List Log)
    → All (λ l. contains l.id done ≡ true) (newest_first ls)
    → All (λ l. l.rolled_back ≡ true) (mark done ls)
unfolding mark flag newest_first
mark_all done [] h = tt
mark_all done (l ∷ ls) h =
    let (older, own) =
      All-append (λ l. contains l.id done ≡ true) (newest_first ls)
        (if l.rolled_back then [] else l ∷ []) h in
    (flagged (Bool-cases l.rolled_back) own, mark_all done ls older)
  where
    flagged :
        (l.rolled_back ≡ true) ⊎ (l.rolled_back ≡ false)
        → All (λ x. contains x.id done ≡ true) (if l.rolled_back then [] else l ∷ [])
        → (if contains l.id done then true else l.rolled_back) ≡ true
    flagged (inl hit) own = ground arith
    flagged (inr miss) own =
        rw (let all : All (λ x. contains x.id done ≡ true) (l ∷ []) = rw miss at own in all.0) refl

-- A log that is left over by no flag.
mark_none_left :
    (done : List ℕ) (ls : List Log) (k : ℕ)
    → count k (ids ls) ≤ 1
    → any (λ l. not l.rolled_back) (mark done ls) ≡ false
    → count k (ids (newest_first ls)) ≤ count k done
unfolding mark flag newest_first
mark_none_left done [] k d h = omega arith
mark_none_left done (l ∷ ls) k d h =
    let rest : any (λ x. not x.rolled_back) (mark done ls) ≡ false = ground (arith, h) in
    let own : (if contains l.id done then true else l.rolled_back) ≡ true = ground (arith, h) in
    ground (
      arith,
      own,
      d,
      =?_iff l.id k,
      count-newest_first k l ls,
      count-newest_first_le k ls,
      mark_none_left done ls k (ground (arith, d)) rest,
      In_done (l.id),
    )
  where
    In_done : (i : ℕ) → contains i done ≡ true → 0 < count i done
    In_done i = contains-In i done

-- The session's rows after a rollback that has run over its logs.
abbrev pub Settled : {W : Type 0} → Bool → Done W → Type 0
Settled true d =
    (task : ExecTask) × (d.task ≡ some task)
    × (task.rollback_status ≡ RollbackStatus.rolled)
    × All (λ l. l.rolled_back ≡ true) d.logs
Settled false d =
    (task : ExecTask) × (d.task ≡ some task)
    × (task.rollback_status ≡ RollbackStatus.rollback_failed)
    × (any (λ l. not l.rolled_back) d.logs ≡ true)

left_over :
    {W : Type 0} (s : Stores W) (logs : List Log) (w : W)
    → Distinct (ids logs)
    → (process_logs s (newest_first logs) (start w)).failed_logs ≢ []
    → any (λ l. not l.rolled_back) (mark (process_logs s (newest_first logs) (start w)).rolled logs)
      ≡ true
left_over s logs w d bad =
    let p = process_logs s (newest_first logs) (start w) in
    elim (Bool-cases (any (λ l. not l.rolled_back) (mark p.rolled logs))) [
      | inl left ↦ left
      | inr nothing_left ↦
          let fits =
            length-le_of_count (ids (newest_first logs)) p.rolled
              (λ k. mark_none_left p.rolled logs k (d k) nothing_left) in
          absurd (
            bad (
              length_zero p.failed_logs (
                omega (
                  arith,
                  fits,
                  process_logs-length s (newest_first logs) (start w),
                  length-map (λ (l : Log). l.id) (newest_first logs),
                ))))
    ]
  where
    length_zero : (fs : List FailedLog) → length fs ≡ 0 → fs ≡ []
    length_zero [] h = refl
    length_zero (f ∷ fs) h = absurd (omega (arith, h))

-- A rollback that reports success has set the task to rolled back, and every log of the task is flagged.
-- One that reports failed items has set it to failed, and a log is left to roll back. The logs' ids are
-- distinct.
pub rollback_exec_task-Settled :
    {W : Type 0} (s : Stores W) (task : ExecTask) (logs : List Log) (operator : ℕ) (w : W)
    (success : Bool) (deleted failed : ℕ)
    → Distinct (ids logs)
    → (rollback_exec_task s (some task) logs operator w).report ≡ finished success deleted failed
    → Settled success (rollback_exec_task s (some task) logs operator w)
unfolding rollback_exec_task settle fail_task
rollback_exec_task-Settled s task logs operator w success deleted failed d h =
    let p = process_logs s (newest_first logs) (start w) in
    elim (Result-cases (s.commit p.world).0) [
      | inr (e, x) ↦ absurd (cc (rw (x, rollback_exec_task) at h))
      | inl (done, x) ↦ by_failures p.failed_logs refl done x
    ]
  where
    by_failures :
        (fs : List FailedLog)
        → (process_logs s (newest_first logs) (start w)).failed_logs ≡ fs
        → (done : Unit)
        → (s.commit (process_logs s (newest_first logs) (start w)).world).0 ≡ ok done
        → Settled success (rollback_exec_task s (some task) logs operator w)
    by_failures [] e done x =
        let (first, all) = process_logs-clean s (newest_first logs) (start w) e in
        let reported : finished true _ _ ≡ finished success deleted failed =
          rw (x, e, rollback_exec_task) at h in
        let same : true ≡ success = cc in
        subst (λ b. Settled b (rollback_exec_task s (some task) logs operator w)) same
          (
            settle operator [] task,
            rw (x, e, rollback_exec_task) refl,
            refl,
            rw (x, rollback_exec_task)
                (mark_all (process_logs s (newest_first logs) (start w)).rolled logs all),
          )
    by_failures (f ∷ fs) e done x =
        let left = left_over s logs w d (λ empty. cc (e, empty)) in
        let reported : finished false _ _ ≡ finished success deleted failed =
          rw (x, e, rollback_exec_task) at h in
        let same : false ≡ success = cc in
        subst (λ b. Settled b (rollback_exec_task s (some task) logs operator w)) same
          (
            settle operator (f ∷ fs) task,
            rw (x, e, rollback_exec_task) refl,
            refl,
            rw (x, rollback_exec_task) left,
          )

-- What the services read of a task, but for the state of its rollback.
abbrev pub SameTask : ExecTask → ExecTask → Type 0
SameTask t u = (t.status ≡ u.status) × (t.created_by ≡ u.created_by) × (t.group_type ≡ u.group_type)

settle-SameTask :
    (operator : ℕ) (fs : List FailedLog) (task : ExecTask) → SameTask (settle operator fs task) task
unfolding settle
settle-SameTask operator [] task = (refl, refl, refl)
settle-SameTask operator (f ∷ fs) task = (refl, refl, refl)

-- The rollback leaves the task's state, its owner and its group alone.
pub rollback_exec_task-SameTask :
    {W : Type 0} (s : Stores W) (task t : ExecTask) (logs : List Log) (operator : ℕ) (w : W)
    → (rollback_exec_task s (some task) logs operator w).task ≡ some t
    → SameTask t task
unfolding rollback_exec_task fail_task
rollback_exec_task-SameTask s task t logs operator w h =
    let p = process_logs s (newest_first logs) (start w) in
    elim (Result-cases (s.commit p.world).0) [
      | inl (done, x) ↦
          let same : settle operator p.failed_logs task ≡ t =
            some-injective _ _ (rw (x, rollback_exec_task) at h) in
          rw (← same) (settle-SameTask operator p.failed_logs task)
      | inr (e, x) ↦ elim (Result-cases (s.commit (s.commit p.world).1).0) [
        | inl (done, y) ↦
            let same = some-injective _ _ (rw (x, y, rollback_exec_task, fail_task) at h) in
            rw (← same) (refl, refl, refl)
        | inr (f, y) ↦
            let same : task ≡ t =
              some-injective _ _ (rw (x, y, rollback_exec_task, fail_task) at h) in
            rw (← same) (refl, refl, refl)
      ]
    ]
