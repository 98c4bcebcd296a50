-- ===== src/TaskService/Requests.antt =====
-- The requests on a task, and how they go together with the rollback that runs in Celery.
use data_factory.Base.{
  ℕ, String, ◌≡◌, ◌≢◌, ◌↔◌, ◌⊎◌, refl, ◌∙◌, Bool, true, false, not, Option, some, List, [], ◌∷◌,
  nat_eq, sum_by, is_empty, any, Bool-cases, inl, inr, arith,
}
use data_factory.Base.Count.{Distinct}
use data_factory.Base.Result.{Result, ok, err, raise_if, ◌>>◌}
use data_factory.Executor.Types.{TaskStatus}
use data_factory.TaskService.Types.{RollbackStatus, ExecTask, Log, User}
use data_factory.TaskService.RollbackTask.{Stores, finished, rollback_exec_task}
use data_factory.TaskService.RollbackTask.Verdict.{
  Settled, SameTask, rollback_exec_task-Settled, rollback_exec_task-SameTask, ids,
}
use data_factory.TaskService.{
  BizError, forbidden, task_already_finished, task_not_rollbackable, task_rollback_conflict,
  is_running, is_retryable, is_rollbackable, is_visible, get_task_checked, may_operate, abort_task,
  retry_failed_batches, left_logs, conflict, check_rollback, rollback_task,
}

-- What a user may roll back.
pub record MayRollBack (user : User) (task : ExecTask) (logs : List Log) : Type 0 where
  pub seen : is_visible user task.group_type ≡ true
  pub allowed : may_operate user task ≡ true
  pub ended : is_rollbackable task.status ≡ true
  pub free : conflict task.rollback_status ≡ false
  pub left : is_empty (left_logs logs) ≡ false

-- `raise_if c x` ends well where `c` does not hold.
raise_if-ok :
    {A : Type 0} (c : Bool) (x : BizError) (k : Result BizError A) {a : A}
    → (raise_if c x >> k) ≡ ok a
    → (c ≡ false) × (k ≡ ok a)
raise_if-ok true x k h = absurd (cc h)
raise_if-ok false x k h = (refl, h)

check_rollback-MayRollBack :
    (user : User) (task t : ExecTask) (logs : List Log)
    → check_rollback user (some task) logs ≡ ok t
    → MayRollBack user task logs × (task ≡ t)
unfolding check_rollback get_task_checked
check_rollback-MayRollBack user task t logs h =
    elim (Bool-cases (is_visible user task.group_type)) [
      | inr unseen ↦ absurd (cc (rw unseen at h))
      | inl seen ↦
          let (a, h1) = raise_if-ok (not (may_operate user task)) forbidden _ (rw seen at h) in
          let (b, h2) =
            raise_if-ok (not (is_rollbackable task.status)) task_not_rollbackable _ h1 in
          let (c, h3) = raise_if-ok (conflict task.rollback_status) task_rollback_conflict _ h2 in
          let (d, h4) = raise_if-ok (is_empty (left_logs logs)) task_not_rollbackable _ h3 in
          (
            record {
              seen = seen;
              allowed = ground (arith, a);
              ended = ground (arith, b);
              free = c;
              left = d;
            },
            cc,
          )
    ]

get_task_checked-same :
    (user : User) (task t : ExecTask) → get_task_checked user (some task) ≡ ok t → task ≡ t
unfolding get_task_checked
get_task_checked-same user task t h = elim (Bool-cases (is_visible user task.group_type)) [
  | inl seen ↦ cc (rw seen at h)
  | inr unseen ↦ absurd (cc (rw unseen at h))
]

MayRollBack-check_rollback :
    (user : User) (task : ExecTask) (logs : List Log)
    → MayRollBack user task logs
    → check_rollback user (some task) logs ≡ ok task
unfolding check_rollback get_task_checked
MayRollBack-check_rollback user task logs m = rw (m.seen, m.allowed, m.ended, m.free, m.left) refl

Result-cases :
    {A : Type 0} (r : Result BizError A) → ((a : A) × (r ≡ ok a)) ⊎ ((e : BizError) × (r ≡ err e))
Result-cases (ok a) = inl (a, refl)
Result-cases (err e) = inr (e, refl)

-- A request for a rollback that Celery takes is granted just to those who may roll back, and it answers
-- with the number of rows that the logs still hold.
pub rollback_task-Grants :
    (user : User) (task : ExecTask) (logs : List Log) (n : ℕ)
    → ((rollback_task user (some task) logs true).0 ≡ ok n)
      ↔ (MayRollBack user task logs × (n ≡ sum_by (λ l. l.row_count) (left_logs logs)))
unfolding rollback_task
rollback_task-Grants user task logs n =
    (granted, λ (m, e). rw (rollback_task, MayRollBack-check_rollback user task logs m, e) refl)
  where
    granted :
        (rollback_task user (some task) logs true).0 ≡ ok n
        → MayRollBack user task logs × (n ≡ sum_by (λ l. l.row_count) (left_logs logs))
    granted h = elim (Result-cases (check_rollback user (some task) logs)) [
      | inr (e, x) ↦ absurd (cc (rw (rollback_task, x) at h))
      | inl (t, x) ↦
          ((check_rollback-MayRollBack user task t logs x).0, cc (rw (rollback_task, x) at h))
    ]

-- The task while its rollback runs.
abbrev pub rolling_task : ExecTask → ExecTask
rolling_task task = record task { rollback_status = RollbackStatus.rolling }

any_left :
    (logs : List Log) → any (λ l. not l.rolled_back) logs ≡ true → is_empty (left_logs logs) ≡ false
unfolding left_logs
any_left [] h = absurd (cc h)
any_left (l ∷ logs) h = elim (Bool-cases l.rolled_back) [
  | inl hit ↦ rw hit (any_left logs (rw hit at h))
  | inr miss ↦ rw miss refl
]

conflict_refused :
    (user : User) (task : ExecTask) (logs : List Log)
    → is_visible user task.group_type ≡ true
    → may_operate user task ≡ true
    → is_rollbackable task.status ≡ true
    → conflict task.rollback_status ≡ true
    → rollback_task user (some task) logs true ≡ (err task_rollback_conflict, some task)
unfolding rollback_task check_rollback get_task_checked
conflict_refused user task logs a b c d =
    let refused : check_rollback user (some task) logs ≡ err task_rollback_conflict =
      rw (a, b, c, d) refl in
    rw (rollback_task, refused) refl

-- The answer to the next request, after a rollback that has ended with success or with failed items.
abbrev pub Answers : Bool → User → Option ExecTask → List Log → Type 0
Answers true user task logs = rollback_task user task logs true ≡ (err task_rollback_conflict, task)
Answers false user task logs =
    (rollback_task user task logs true).0 ≡ ok (sum_by (λ l. l.row_count) (left_logs logs))

same_may_operate :
    (user : User) (t task : ExecTask) → SameTask t task → may_operate user t ≡ may_operate user task
unfolding may_operate
same_may_operate user t task (_, owner, _) = rw owner refl

-- While a granted rollback runs, and after it has succeeded, a further request is refused as a conflict
-- and changes nothing. After one with failed items the same user's next request is granted.
pub rollback_task-Cycle :
    {W : Type 0} (s : Stores W) (user : User) (task : ExecTask) (logs : List Log) (w : W)
    (success : Bool) (deleted failed : ℕ)
    → MayRollBack user task logs
    → Distinct (ids logs)
    → (rollback_exec_task s (some (rolling_task task)) logs user.id w).report
      ≡ finished success deleted failed
    → (rollback_task user (some (rolling_task task)) logs true
        ≡ (err task_rollback_conflict, some (rolling_task task)))
      × Answers success user
          (rollback_exec_task s (some (rolling_task task)) logs user.id w).task
          (rollback_exec_task s (some (rolling_task task)) logs user.id w).logs
unfolding conflict may_operate
rollback_task-Cycle s user task logs w success deleted failed may distinct h =
    let d = rollback_exec_task s (some (rolling_task task)) logs user.id w in
    (
      conflict_refused user (rolling_task task) logs may.seen may.allowed may.ended refl,
      after success (
          rollback_exec_task-Settled s (rolling_task task) logs user.id w success deleted failed
            distinct h),
    )
  where
    after :
        (b : Bool)
        → Settled b (rollback_exec_task s (some (rolling_task task)) logs user.id w)
        → Answers b user
            (rollback_exec_task s (some (rolling_task task)) logs user.id w).task
            (rollback_exec_task s (some (rolling_task task)) logs user.id w).logs
    after true (t, same, rolled, all) =
        let d = rollback_exec_task s (some (rolling_task task)) logs user.id w in
        let kept = rollback_exec_task-SameTask s (rolling_task task) t logs user.id w same in
        rw same (
          conflict_refused user t d.logs (rw kept.2 may.seen)
            (same_may_operate user t task kept ∙ may.allowed) (rw kept.0 may.ended)
            (rw rolled refl))
    after false (t, same, again, left) =
        let d = rollback_exec_task s (some (rolling_task task)) logs user.id w in
        let kept = rollback_exec_task-SameTask s (rolling_task task) t logs user.id w same in
        rw same (
          (rollback_task-Grants user t d.logs _).1 (
            record {
              seen = rw kept.2 may.seen;
              allowed = same_may_operate user t task kept ∙ may.allowed;
              ended = rw kept.0 may.ended;
              free = rw again refl;
              left = any_left d.logs left;
            },
            refl,
          ))

-- No request on the task is granted to any user.
abbrev pub Final : ExecTask → Type 0
Final task =
    (user : User)
    → ((x : ExecTask × Option String) → abort_task user (some task) ≢ ok x)
      × ((x : ExecTask) → retry_failed_batches user (some task) ≢ ok x)
      × ((logs : List Log) (submitted : Bool) (n : ℕ)
          → (rollback_task user (some task) logs submitted).0 ≢ ok n)

aborted-Final : (task : ExecTask) → task.status ≡ TaskStatus.aborted → Final task
unfolding abort_task retry_failed_batches rollback_task is_running is_retryable is_rollbackable
aborted-Final task e user = (no_abort, no_retry, no_rollback)
  where
    no_abort : (x : ExecTask × Option String) → abort_task user (some task) ≢ ok x
    no_abort x h = elim (Result-cases (get_task_checked user (some task))) [
      | inr (_, g) ↦ absurd (cc (rw (abort_task, g) at h))
      | inl (t, g) ↦
          let (_, h1) =
            raise_if-ok (not (may_operate user t)) forbidden _ (rw (abort_task, g) at h) in
          let (on, _) = raise_if-ok (not (is_running t.status)) task_already_finished _ h1 in
          absurd (cc (rw (← get_task_checked-same user task t g, e) at on))
    ]

    no_retry : (x : ExecTask) → retry_failed_batches user (some task) ≢ ok x
    no_retry x h = elim (Result-cases (get_task_checked user (some task))) [
      | inr (_, g) ↦ absurd (cc (rw (retry_failed_batches, g) at h))
      | inl (t, g) ↦
          let (_, h1) =
            raise_if-ok (not (may_operate user t)) forbidden _
              (rw (retry_failed_batches, g) at h) in
          let (on, _) = raise_if-ok (not (is_retryable t.status)) task_already_finished _ h1 in
          absurd (cc (rw (← get_task_checked-same user task t g, e) at on))
    ]

    no_rollback :
        (logs : List Log) (submitted : Bool) (n : ℕ)
        → (rollback_task user (some task) logs submitted).0 ≢ ok n
    no_rollback logs submitted n h = elim (Result-cases (check_rollback user (some task) logs)) [
      | inr (_, g) ↦ absurd (cc (rw (rollback_task, g) at h))
      | inl (t, g) ↦
          let ended = (check_rollback-MayRollBack user task t logs g).0.ended in
          absurd (cc (rw e at ended))
    ]

-- A task is stopped only while it runs or waits, by its owner or an administrator. A stopped task is
-- final: no user can stop it again, retry it or roll it back.
pub abort_task-Final :
    (user : User) (task t : ExecTask) (job : Option String)
    → abort_task user (some task) ≡ ok (t, job)
    → (is_running task.status ≡ true)
      × (may_operate user task ≡ true)
      × (t.status ≡ TaskStatus.aborted)
      × Final t
unfolding abort_task
abort_task-Final user task t job h = elim (Result-cases (get_task_checked user (some task))) [
  | inr (_, g) ↦ absurd (cc (rw (abort_task, g) at h))
  | inl (u, g) ↦
      let same = get_task_checked-same user task u g in
      let (a, h1) = raise_if-ok (not (may_operate user u)) forbidden _ (rw (abort_task, g) at h) in
      let (b, h2) = raise_if-ok (not (is_running u.status)) task_already_finished _ h1 in
      let done : t.status ≡ TaskStatus.aborted = cc (h2) in
      (rw same (ground (arith, b)), rw same (ground (arith, a)), done, aborted-Final t done)
]
