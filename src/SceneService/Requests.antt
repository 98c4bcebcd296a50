-- ===== src/SceneService/Requests.antt =====
-- Stopping an execution and retrying its nodes.
use data_factory.Base.{
  ◌≡◌, ◌≢◌, refl, ap, sym, String, true, false, not, Option, none, some, List, [], ◌∷◌, map,
  string_eq, All, Bool-cases, inl, inr, arith,
}
use mathlib.Core.Option.{some-injective}
use data_factory.Base.Result.{ok}
use data_factory.TaskService.Types.{ExecTask, User}
use data_factory.TaskService.{is_running, is_visible}
use data_factory.Scene.{SceneStatus, NodeStatus}
use data_factory.Scene.Runs.{Result-cases}
use data_factory.SceneService.{
  scene_forbidden, scene_already_finished, NodeRow, SceneRun, get_scene_exec_checked, owns_run,
  is_active, active_node, stop_task, cancel_task, cancel_row, abort_run, abort_scene,
}
use data_factory.SceneService.Valid.{raise_if-ok}

pub get_scene_exec_checked-same :
    (user : User) (run r : SceneRun) → get_scene_exec_checked user (some run) ≡ ok r → run ≡ r
unfolding get_scene_exec_checked
get_scene_exec_checked-same user run r h = elim (Bool-cases (is_visible user run.group_type)) [
  | inl seen ↦ cc (rw seen at h)
  | inr unseen ↦ absurd (cc (rw unseen at h))
]

-- What a stop makes of a row.
abbrev pub Stopped : NodeRow → NodeRow → Type 0
Stopped before after =
    (active_node after.exec.status ≡ false)
    × (active_node before.exec.status ≡ false → after ≡ before)
    × (active_node before.exec.status ≡ true → after.exec.status ≡ NodeStatus.cancelled)
    × (before.exec.status ≡ NodeStatus.running
        → (t : ExecTask) → after.task ≡ some t
        → is_running t.status ≡ false)

stop_task-ended : (t : ExecTask) → is_running (stop_task t).status ≡ false
unfolding stop_task is_running
stop_task-ended t = elim (Bool-cases (is_running t.status)) [
  | inl hit ↦ rw (hit, stop_task) refl
  | inr miss ↦ rw (miss, stop_task) miss
]

cancel_row-Stopped : (r : NodeRow) → Stopped r (cancel_row r)
unfolding cancel_row cancel_task active_node
cancel_row-Stopped r = elim (Bool-cases (active_node r.exec.status)) [
  | inr still ↦
      let same : cancel_row r ≡ r = rw (still, cancel_row) refl in
      rw same
        (still, λ _. refl, λ h. absurd (cc (h, still)), λ h. absurd (cc (still, ap active_node h)))
  | inl on ↦
      let cancelled : (cancel_row r).exec.status ≡ NodeStatus.cancelled =
        rw (on, cancel_row) refl in
      (
        rw cancelled refl,
        λ h. absurd (cc (h, on)),
        λ _. cancelled,
        λ h t e. stopped r.task h t (rw (on, cancel_row) at e),
      )
]
  where
    stopped :
        (o : Option ExecTask)
        → r.exec.status ≡ NodeStatus.running
        → (t : ExecTask) → cancel_task r.exec.status o ≡ some t
        → is_running t.status ≡ false
    stopped none h t e = absurd (cc (rw (h, cancel_task) at e))
    stopped (some u) h t e =
        let same : stop_task u ≡ t = some-injective _ _ (rw (h, cancel_task) at e) in
        rw (← same) (stop_task-ended u)

all-Stopped : (rows : List NodeRow) → All (λ r. Stopped r (cancel_row r)) rows
all-Stopped [] = tt
all-Stopped (r ∷ rows) = (cancel_row-Stopped r, all-Stopped rows)

-- An execution is stopped only while it waits or runs, by its owner or an administrator. Then it is
-- aborted, no row waits or runs, rows that had ended are as they were, and no task of a row that ran is
-- still running. It cannot be stopped again.
pub abort_scene-Stops :
    (user : User) (run after : SceneRun) (jobs : List String)
    → abort_scene user (some run) ≡ ok (after, jobs)
    → (is_active run.status ≡ true)
      × (owns_run user run ≡ true)
      × (after.status ≡ SceneStatus.aborted)
      × (after.rows ≡ map cancel_row run.rows)
      × All (λ r. Stopped r (cancel_row r)) run.rows
      × ((again : SceneRun × List String) → abort_scene user (some after) ≢ ok again)
unfolding abort_scene abort_run is_active
abort_scene-Stops user run after jobs h =
    elim (Result-cases (get_scene_exec_checked user (some run))) [
      | inr (_, g) ↦ absurd (cc (rw (abort_scene, g) at h))
      | inl (r, g) ↦
          let same = get_scene_exec_checked-same user run r g in
          let (a, h1) =
            raise_if-ok (not (owns_run user r)) scene_forbidden _ (rw (abort_scene, g) at h) in
          let (b, h2) = raise_if-ok (not (is_active r.status)) scene_already_finished _ h1 in
          let done : abort_run r ≡ after = cc (h2) in
          let aborted_now : after.status ≡ SceneStatus.aborted =
            ap (λ (x : SceneRun). x.status) (sym done) in
          (
            rw same (ground (arith, b)),
            rw same (ground (arith, a)),
            aborted_now,
            rw same (ap (λ (x : SceneRun). x.rows) (sym done)),
            all-Stopped run.rows,
            λ again e. refused after aborted_now again e,
          )
    ]
  where
    refused :
        (x : SceneRun)
        → x.status ≡ SceneStatus.aborted
        → (y : SceneRun × List String) → abort_scene user (some x) ≢ ok y
    refused x e y k = elim (Result-cases (get_scene_exec_checked user (some x))) [
      | inr (_, g) ↦ absurd (cc (rw (abort_scene, g) at k))
      | inl (r, g) ↦
          let (_, k1) =
            raise_if-ok (not (owns_run user r)) scene_forbidden _ (rw (abort_scene, g) at k) in
          let (on, _) = raise_if-ok (not (is_active r.status)) scene_already_finished _ k1 in
          absurd (cc (rw (← get_scene_exec_checked-same user x r g, e) at on))
    ]
