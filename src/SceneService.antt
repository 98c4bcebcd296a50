-- ===== src/SceneService.antt =====
-- backend/app/services/scene_service.py: what may be saved as a scene, and what a user may do with its
-- execution. Lists, histories, the audit and the progress in Redis are left out.
pub mod Valid
pub mod Requests
pub mod RetryNodes
mod Samples
use data_factory.Base.{
  ℕ, String, Bool, true, false, not, Option, none, some, List, [], ◌∷◌, map, if◌then◌else◌, ◌==◌,
  ◌=?◌, string_eq, nat_eq, ltb, keep, length, all, is_empty, any,
}
use data_factory.Base.Count.{contains}
use data_factory.Base.Dict.{Dict, get}
use data_factory.Base.Result.{Result, ok, err, ◌>>=◌, raise_if, ◌>>◌}
use data_factory.Base.Slices.{flatten}
use data_factory.DepAnalyzer.{Edge, build_layers}
use data_factory.Scene.{SceneStatus, NodeStatus, Node, NodeExec, is_lost}
use data_factory.Executor.Types.{TaskStatus}
use data_factory.TaskService.Types.{ExecTask, User}
use data_factory.TaskService.{admin_group_type, is_visible, is_running, revoked}

-- `BizException`, by its code.
pub data SceneFault : Type 0 where
  scene_name_taken scene_node_too_few param_invalid scene_target_count_missing scene_cycle_detected
        scene_node_case_deleted scene_exec_not_found scene_forbidden scene_already_finished
        scene_submit_failed :
      SceneFault

-- A row of df_case.
pub record SceneCase : Type 0 where
  pub is_deleted : Bool
  pub group_type : ℕ

-- `group_scope_values`
pub group_scope_values : User → Option (List ℕ)
group_scope_values user =
    if user.group_type == admin_group_type
    then none
    else some (user.group_type ∷ admin_group_type ∷ [])

-- `len(set(xs)) != len(xs)`
pub set_of : List String → List String
set_of [] = []
set_of (x ∷ xs) = let rest = set_of xs in if contains x rest then rest else x ∷ rest

pub has_duplicates : List String → Bool
unfolding set_of
has_duplicates xs = not (length (set_of xs) == length xs)

-- An edge joins two nodes, and not a node with itself.
pub check_edges : List String → List Edge → Result SceneFault (Unit {0})
check_edges ids [] = ok tt
check_edges ids (e ∷ es) = do
  raise_if (not (if contains e.0 ids then contains e.1 ids else false)) param_invalid
  raise_if (e.0 =? e.1) scene_cycle_detected
  check_edges ids es

pub check_cycle : List String → List Edge → Result SceneFault (Unit {0})
check_cycle ids edges = elim (build_layers ids edges) [
  | err _ ↦ err scene_cycle_detected
  | ok _ ↦ ok tt
]

-- The case of a node exists, is not deleted and is in the user's scope.
pub case_usable : Option (List ℕ) → Option SceneCase → Bool
case_usable scope none = false
case_usable scope (some c) =
    if c.is_deleted
    then false
    else elim scope [ none ↦ true | some groups ↦ contains c.group_type groups ]

pub check_cases :
    (case_map : ℕ → Option SceneCase) → Option (List ℕ) → List Node → Result SceneFault (Unit {0})
unfolding case_usable
check_cases case_map scope [] = ok tt
check_cases case_map scope (n ∷ ns) = do
  raise_if (not (case_usable scope (case_map n.case_id))) scene_node_case_deleted
  check_cases case_map scope ns

-- `_validate_scene_payload`. `name_taken` and `case_map` are what its two queries find; a missing
-- `target_count` is 0.
pub validate_scene_payload :
    (name_taken : Bool) (case_map : ℕ → Option SceneCase)
    → User
    → List Node
    → List Edge
    → Result SceneFault (Unit {0})
unfolding has_duplicates check_edges check_cycle check_cases group_scope_values
validate_scene_payload name_taken case_map user nodes edges = do
  raise_if name_taken scene_name_taken
  raise_if (ltb (length nodes) 2) scene_node_too_few
  raise_if (has_duplicates (map (λ n. n.node_id) nodes)) param_invalid
  raise_if (any (λ n. n.target_count == 0) nodes) scene_target_count_missing
  check_edges (map (λ n. n.node_id) nodes) edges
  check_cycle (map (λ n. n.node_id) nodes) edges
  check_cases case_map (group_scope_values user) nodes

pub data ExecMode : Type 0 where
  parallel serial mixed : ExecMode

-- `_detect_exec_mode`; the error is that of `build_layers`.
pub detect_exec_mode : List Node → List Edge → Result SceneFault ExecMode
detect_exec_mode nodes [] = ok ExecMode.parallel
detect_exec_mode nodes (e ∷ es) = elim (build_layers (map (λ n. n.node_id) nodes) (e ∷ es)) [
  | err _ ↦ err scene_cycle_detected
  | ok layers ↦ ok (if all (λ l. length l == 1) layers then ExecMode.serial else ExecMode.mixed)
]

-- A row of df_scene_node_exec with the task that it names, if there is one.
pub record NodeRow : Type 0 where
  pub exec : NodeExec
  pub task : Option ExecTask

-- An execution with its rows.
pub record SceneRun : Type 0 where
  pub created_by : ℕ
  pub group_type : ℕ
  pub status : SceneStatus
  pub rows : List NodeRow

-- `get_scene_exec_checked`
pub get_scene_exec_checked : User → Option SceneRun → Result SceneFault SceneRun
get_scene_exec_checked user none = err scene_exec_not_found
get_scene_exec_checked user (some run) =
    if is_visible user run.group_type then ok run else err scene_exec_not_found

pub owns_run : User → SceneRun → Bool
owns_run user run = if run.created_by == user.id then true else user.group_type == admin_group_type

-- The execution waits or runs.
pub is_active : SceneStatus → Bool
is_active SceneStatus.pending = true
is_active SceneStatus.running = true
is_active _ = false

pub active_node : NodeStatus → Bool
active_node NodeStatus.pending = true
active_node NodeStatus.running = true
active_node _ = false

-- The task of a running node is stopped.
pub stop_task : ExecTask → ExecTask
stop_task t = if is_running t.status then record t { status = TaskStatus.aborted } else t

pub cancel_task : NodeStatus → Option ExecTask → Option ExecTask
unfolding stop_task
cancel_task NodeStatus.running (some t) = some (stop_task t)
cancel_task _ t = t

-- A node that waits or runs is cancelled.
pub cancel_row : NodeRow → NodeRow
unfolding active_node cancel_task
cancel_row r =
    if active_node r.exec.status
    then record {
      exec = record r.exec { status = NodeStatus.cancelled; error_msg = some "用户强制停止场景" };
      task = cancel_task r.exec.status r.task;
    }
    else r

-- The Celery task of a running node.
pub revoked_of : NodeRow → List String
unfolding revoked
revoked_of r = elim r.exec.status [
  | NodeStatus.running ↦ elim r.task [
    | none ↦ []
    | some t ↦ elim (revoked t.celery_task_id) [ none ↦ [] | some job ↦ job ∷ [] ]
  ]
  | _ ↦ []
]

pub abort_run : SceneRun → SceneRun
unfolding cancel_row
abort_run run = record run { status = SceneStatus.aborted; rows = map cancel_row run.rows }

-- `abort_scene`: the execution, and the Celery tasks that are revoked.
pub abort_scene : User → Option SceneRun → Result SceneFault (SceneRun × List String)
unfolding get_scene_exec_checked owns_run is_active abort_run revoked_of
abort_scene user found = do
  run ← get_scene_exec_checked user found
  raise_if (not (owns_run user run)) scene_forbidden
  raise_if (not (is_active run.status)) scene_already_finished
  ok (abort_run run, flatten (map revoked_of run.rows))

pub chosen_rows : List String → List NodeRow → List NodeRow
chosen_rows node_ids rows = keep (λ r. contains r.exec.node_id node_ids) rows

-- `retry_scene_nodes`: the ids with which `tasks.retry_scene_nodes` is sent. `submitted`: Celery takes it.
pub retry_scene_nodes :
    User → Option SceneRun → List String → (submitted : Bool) → Result SceneFault (List String)
unfolding get_scene_exec_checked owns_run is_active chosen_rows
retry_scene_nodes user found node_ids submitted = do
  run ← get_scene_exec_checked user found
  raise_if (not (owns_run user run)) scene_forbidden
  raise_if (is_active run.status) param_invalid
  let found_ids = map (λ r. r.exec.node_id) (chosen_rows node_ids run.rows)
  raise_if (any (λ k. not (contains k found_ids)) node_ids) param_invalid
  let retryable = keep (λ r. is_lost r.exec) (chosen_rows node_ids run.rows)
  raise_if (is_empty retryable) param_invalid
  raise_if (not submitted) scene_submit_failed
  ok (map (λ r. r.exec.node_id) retryable)
