-- ===== src/SceneService/Samples.antt =====
-- A scene of two nodes, and its execution while the second node runs and after it failed.
use data_factory.Base.{
  ◌↔◌, ℕ, String, ◌≡◌, ◌≢◌, refl, Bool, true, false, Option, none, some, List, [], ◌∷◌, map, keep,
  All, ◌⊎◌, string_eq, nat_eq,
}
use data_factory.Base.Count.{contains}
use data_factory.Base.Result.{ok}
use data_factory.Executor.Types.{TaskStatus}
use data_factory.TaskService.Types.{RollbackStatus, ExecTask, User}
use data_factory.TaskService.{is_visible, revoked}
use data_factory.Base.Dict.{get, put}
use data_factory.DepAnalyzer.{
  Edge, build_layers, layer_loop, load, zeros, roots, release, release_layer, successors,
  add_successor, increment, check_layers,
}
use data_factory.Scene.{
  SceneStatus, NodeStatus, Node, NodeExec, Workers, SceneExec, is_lost, is_retried,
  retry_failed_nodes, skipped, execute_scene, finished, raised, timeout,
}
use data_factory.Scene.Complete.{Complete}
use data_factory.SceneService.{
  SceneCase, set_of, has_duplicates, check_edges, check_cycle, case_usable, check_cases,
  group_scope_values, validate_scene_payload, ExecMode, detect_exec_mode, SceneRun,
  get_scene_exec_checked, owns_run, is_active, cancel_row, abort_run, abort_scene, revoked_of,
  chosen_rows, retry_scene_nodes,
}
use data_factory.SceneService.Valid.{validate_scene_payload-Runs}
use data_factory.SceneService.Requests.{Stopped, abort_scene-Stops}
use data_factory.SceneService.RetryNodes.{execs_of, has_lost, retry_scene_nodes-Retries}

abbrev user : User
user = record { id = 1; group_type = 1 }

abbrev node : String → ℕ → Node
node k c = record { node_id = k; case_id = c; target_count = 10; fail_strategy = none }

abbrev nodes : List Node
nodes = node "a" 1 ∷ node "b" 2 ∷ []

abbrev edges : List Edge
edges = ("a", "b") ∷ []

abbrev find_case : ℕ → Option SceneCase
find_case c = some (record { is_deleted = false; group_type = 1 })

abbrev workers : Workers
workers = record {
  has_case = λ c. true;
  end_of =
      λ n. some (record { succeeded = true; success_count = 10; fail_count = 0; error_msg = none });
}

saved : validate_scene_payload false find_case user nodes edges ≡ ok tt
unfolding validate_scene_payload set_of has_duplicates check_edges check_cycle case_usable
    check_cases group_scope_values build_layers layer_loop load zeros roots release release_layer
    successors add_successor increment check_layers get put
saved = refl

validate_scene_payload-Runs_example :
    ((mode : ExecMode) × (detect_exec_mode nodes edges ≡ ok mode))
    × (((flag : Bool) × (xs : List NodeExec) × (execute_scene workers nodes edges
              SceneStatus.pending
            ≡ finished flag xs)
          × Complete nodes edges flag xs)
        ⊎ (execute_scene workers nodes edges SceneStatus.pending ≡ raised timeout))
validate_scene_payload-Runs_example =
    validate_scene_payload-Runs false find_case user nodes edges saved workers

abbrev exec : String → NodeStatus → NodeExec
exec k s = record {
  node_id = k;
  case_id = 1;
  layer_no = 0;
  target_count = 10;
  success_count = 0;
  fail_count = 0;
  fail_strategy = "continue";
  status = s;
  error_msg = none;
}

abbrev task : ExecTask
task = record {
  created_by = 1;
  group_type = 1;
  status = TaskStatus.running;
  celery_task_id = some "job";
  rollback_status = RollbackStatus.not_rolled;
  rolled_back_by = none;
  rollback_error = none;
}

abbrev run : SceneRun
run = record {
  created_by = 1;
  group_type = 1;
  status = SceneStatus.running;
  rows =
      record { exec = exec "a" NodeStatus.success; task = none }
      ∷ record { exec = exec "b" NodeStatus.running; task = some task }
      ∷ [];
}

stopped : abort_scene user (some run) ≡ ok (abort_run run, "job" ∷ [])
unfolding abort_scene get_scene_exec_checked is_visible owns_run is_active revoked_of revoked
stopped = refl

abort_scene-Stops_example :
    (is_active run.status ≡ true)
    × (owns_run user run ≡ true)
    × ((abort_run run).status ≡ SceneStatus.aborted)
    × ((abort_run run).rows ≡ map cancel_row run.rows)
    × All (λ r. Stopped r (cancel_row r)) run.rows
    × ((again : SceneRun × List String) → abort_scene user (some (abort_run run)) ≢ ok again)
abort_scene-Stops_example = abort_scene-Stops user run (abort_run run) ("job" ∷ []) stopped

abbrev failed_run : SceneRun
failed_run = record run {
  status = SceneStatus.partial;
  rows =
      record { exec = exec "a" NodeStatus.success; task = none }
      ∷ record { exec = exec "b" NodeStatus.failed; task = none }
      ∷ [];
}

sent_b : retry_scene_nodes user (some failed_run) ("a" ∷ "b" ∷ []) true ≡ ok ("b" ∷ [])
unfolding retry_scene_nodes get_scene_exec_checked is_visible owns_run is_active chosen_rows is_lost
sent_b = refl

retry_scene_nodes-Retries_example :
    (is_active failed_run.status ≡ false)
    × (owns_run user failed_run ≡ true)
    × (true ≡ true)
    × ((k : String)
        → (contains k ("b" ∷ []) ≡ true)
          ↔ ((contains k ("a" ∷ "b" ∷ []) ≡ true) × (has_lost k failed_run.rows ≡ true)))
    × (keep (is_retried ("b" ∷ [])) (execs_of failed_run)
        ≡ keep (is_retried ("a" ∷ "b" ∷ [])) (execs_of failed_run))
    × ((w : Workers) (s : SceneExec)
        → (retry_failed_nodes w ("b" ∷ []) (execs_of failed_run) s).0 ≢ skipped)
retry_scene_nodes-Retries_example =
    retry_scene_nodes-Retries user failed_run ("a" ∷ "b" ∷ []) ("b" ∷ []) true sent_b
