-- ===== src/Scene/Samples.antt =====
-- A scene of two nodes, and the theorems at it.
use data_factory.Base.{
  ◌↔◌, keep, length, ◌≡◌, refl, true, false, none, some, List, [], ◌∷◌, if◌then◌else◌, ◌==◌, ◌=?◌,
  =?_iff, string_eq, All, Bool-cases, inl, inr, arith,
}
use data_factory.Base.Count.{Distinct}
use data_factory.Base.Dict.{get, put}
use data_factory.Base.Result.{ok}
use data_factory.DepAnalyzer.{
  Edge, successors, add_successor, increment, load, zeros, roots, release, release_layer,
  layer_loop, check_layers, build_layers,
}
use data_factory.Scene.{
  SceneStatus, NodeStatus, Node, NodeExec, Workers, SceneExec, strategy_of, node_map, new_exec,
  submit_node, end_node, run_node, run_layer, aborts, abort_nodes, find_exec, cancel_exec,
  cancelled_exec, cancel_remaining, run_layers, is_ended_well, is_lost, finished, is_pending,
  run_scene, execute_scene, is_retried, rerun_exec, retry_exec, retry_execs, retry_failed_nodes,
}
use data_factory.Scene.Runs.{Ended}
use data_factory.Scene.Complete.{Complete, ids, execute_scene-Complete}
use data_factory.Scene.Retry.{
  RetriedAll, stays_lost, retry_failed_nodes-RetriedAll, retry_failed_nodes-Blind,
}

abbrev user_node : Node
user_node = record {
  node_id = "user";
  case_id = 1;
  target_count = 10;
  fail_strategy = some "abort";
}

abbrev order_node : Node
order_node = record { node_id = "order"; case_id = 2; target_count = 20; fail_strategy = none }

abbrev nodes : List Node
nodes = order_node ∷ user_node ∷ []

abbrev edges : List Edge
edges = ("user", "order") ∷ []

-- Case 1 is gone; all the rest succeeds.
abbrev workers : Workers
workers = record {
  has_case = λ c. if c == 1 then false else true;
  end_of = λ n. some (record {
    succeeded = true;
    success_count = n.target_count;
    fail_count = 0;
    error_msg = none;
  });
}

abbrev user_row : NodeExec
user_row = record {
  node_id = "user";
  case_id = 1;
  layer_no = 0;
  target_count = 10;
  success_count = 0;
  fail_count = 0;
  fail_strategy = "abort";
  status = NodeStatus.failed;
  error_msg = some "关联 Case 不存在或已删除";
}

abbrev order_row : NodeExec
order_row = record {
  node_id = "order";
  case_id = 2;
  layer_no = 1;
  target_count = 20;
  success_count = 0;
  fail_count = 0;
  fail_strategy = "continue";
  status = NodeStatus.cancelled;
  error_msg = some "前置节点触发终止策略，已取消";
}

abbrev rows : List NodeExec
rows = user_row ∷ order_row ∷ []

layered : build_layers (ids nodes) edges ≡ ok (("user" ∷ []) ∷ ("order" ∷ []) ∷ [])
unfolding build_layers load zeros roots layer_loop release_layer release successors add_successor
    increment get put check_layers
layered = refl

-- The first node fails with "abort", and the second is cancelled.
aborted_run : execute_scene workers nodes edges SceneStatus.pending ≡ finished true rows
unfolding execute_scene is_pending run_scene node_map run_layers run_layer run_node submit_node
    end_node new_exec strategy_of abort_nodes aborts find_exec cancel_exec cancelled_exec
    cancel_remaining get put
aborted_run = rw layered refl

distinct : Distinct (ids nodes)
distinct k = elim (Bool-cases ("order" =? k)) [
  | inl hit ↦ rw (← (=?_iff "order" k).0 hit) (omega arith)
  | inr miss ↦ ground arith
]

execute_scene-Complete_example : Complete nodes edges true rows
execute_scene-Complete_example =
    execute_scene-Complete workers nodes edges SceneStatus.pending true rows distinct aborted_run

abbrev order_done : NodeExec
order_done = record order_row { status = NodeStatus.success; success_count = 20; error_msg = none }

abbrev scene : SceneExec
scene = record {
  status = SceneStatus.failed;
  success_count = 0;
  fail_count = 2;
  total_rows = 0;
  error_msg = none;
}

retried :
    (retry_failed_nodes workers ("order" ∷ []) rows scene).0
    ≡ finished false (user_row ∷ order_done ∷ [])
unfolding retry_failed_nodes retry_execs retry_exec rerun_exec end_node is_retried is_lost
retried = refl

rows-Ended : All Ended rows
unfolding is_lost is_ended_well
rows-Ended = (refl, (refl, tt))

retry_failed_nodes-RetriedAll_example : RetriedAll ("order" ∷ []) rows (user_row ∷ order_done ∷ [])
retry_failed_nodes-RetriedAll_example =
    retry_failed_nodes-RetriedAll workers ("order" ∷ []) rows (user_row ∷ order_done ∷ []) scene
      false rows-Ended retried

abbrev failing : Workers
failing = record workers {
  end_of = λ n. some (record {
    succeeded = false;
    success_count = 0;
    fail_count = n.target_count;
    error_msg = some "执行失败";
  });
}

abbrev order_failed : NodeExec
order_failed = record order_row {
  status = NodeStatus.failed;
  fail_count = 20;
  error_msg = some "执行失败";
}

failed_again :
    (retry_failed_nodes failing ("order" ∷ []) (order_row ∷ []) scene).0
    ≡ finished false (order_failed ∷ [])
unfolding retry_failed_nodes retry_execs retry_exec rerun_exec end_node is_retried is_lost
failed_again = refl

-- The only node fails again, and the execution is a success.
retry_failed_nodes-Blind_example :
    ((retry_failed_nodes failing ("order" ∷ []) (order_row ∷ []) scene).1.fail_count
      ≡ length (keep (stays_lost failing.has_case ("order" ∷ [])) (order_row ∷ [])))
    × (((retry_failed_nodes failing ("order" ∷ []) (order_row ∷ []) scene).1.status
          ≡ SceneStatus.success)
        ↔ (length (keep (stays_lost failing.has_case ("order" ∷ [])) (order_row ∷ [])) ≡ 0))
retry_failed_nodes-Blind_example =
    retry_failed_nodes-Blind failing ("order" ∷ []) (order_row ∷ []) (order_failed ∷ []) scene false
      failed_again
