-- ===== src/Scene.antt =====
-- backend/app/engine/scene_executor.py: the nodes of a scene are run layer by layer. The progress in
-- Redis, times and the task that a node gets are left out; what becomes of a node is given.
pub mod Runs
pub mod Complete
pub mod Ends
pub mod Retry
mod Samples
use data_factory.Base.{
  ℕ, zero, suc, ◌+◌, ◌≡◌, String, Bool, true, false, Option, none, some, List, [], ◌∷◌, ◌++◌, map,
  ◌==◌, if◌then◌else◌, ◌=?◌, string_eq, sum_by, length, keep, is_empty,
}
use data_factory.Base.Text.{cut, join}
use data_factory.Base.Count.{contains}
use data_factory.Base.Dict.{Dict, get, put}
use data_factory.Base.Result.{Result, ok, err}
use data_factory.DepAnalyzer.{Edge, DepError, build_layers}
use data_factory.DepAnalyzer.Layers.{concat, layer_index}

-- df_scene_exec.status
pub data SceneStatus : Type 0 where
  pending running success failed partial aborted : SceneStatus

-- df_scene_node_exec.status
pub data NodeStatus : Type 0 where
  pending running success failed cancelled : NodeStatus

-- An entry of the snapshot's `nodes`.
pub record Node : Type 0 where
  pub node_id : String
  pub case_id : ℕ
  pub target_count : ℕ
  pub fail_strategy : Option String

-- A row of df_scene_node_exec.
pub record NodeExec : Type 0 where
  pub node_id : String
  pub case_id : ℕ
  pub layer_no : ℕ
  pub target_count : ℕ
  pub success_count : ℕ
  pub fail_count : ℕ
  pub fail_strategy : String
  pub status : NodeStatus
  pub error_msg : Option String

-- What the task of a node comes to.
pub record NodeEnd : Type 0 where
  pub succeeded : Bool
  pub success_count : ℕ
  pub fail_count : ℕ
  pub error_msg : Option String

-- The cases that are there, and what becomes of a node: nothing within the time that is waited, or an
-- end.
pub record Workers : Type 0 where
  pub has_case : ℕ → Bool
  pub end_of : Node → Option NodeEnd

-- A missing key, or a layer that does not end in time.
pub data SceneError : Type 0 where
  no_node : String → SceneError
  timeout : SceneError

-- `node.get("fail_strategy") or "continue"`
pub strategy_of : Option String → String
strategy_of none = "continue"
strategy_of (some s) = if s =? "" then "continue" else s

-- `{node["node_id"]: node for node in nodes}`
pub node_map : List Node → Dict String Node → Dict String Node
node_map [] d = d
node_map (n ∷ ns) d = node_map ns (put n.node_id n d)

-- The row of a node when it is submitted.
pub new_exec : ℕ → Node → NodeExec
unfolding strategy_of
new_exec layer_no n = record {
  node_id = n.node_id;
  case_id = n.case_id;
  layer_no = layer_no;
  target_count = n.target_count;
  success_count = 0;
  fail_count = 0;
  fail_strategy = strategy_of n.fail_strategy;
  status = NodeStatus.running;
  error_msg = none;
}

-- `_submit_layer_nodes`, for one node: without its case it fails at once.
pub submit_node : Workers → ℕ → Node → NodeExec
unfolding new_exec
submit_node w layer_no n =
    if w.has_case n.case_id then new_exec layer_no n else record (new_exec layer_no n) {
      status = NodeStatus.failed;
      error_msg = some "关联 Case 不存在或已删除";
    }

-- The end of a node is written to its row, which is there.
pub end_node : NodeEnd → NodeExec → NodeExec
end_node e x = record x {
  status = if e.succeeded then NodeStatus.success else NodeStatus.failed;
  success_count = e.success_count;
  fail_count = e.fail_count;
  error_msg = e.error_msg;
}

-- A node is submitted and waited for.
pub run_node : Workers → ℕ → Node → Result SceneError NodeExec
unfolding submit_node end_node
run_node w layer_no n =
    if w.has_case n.case_id
    then elim (w.end_of n) [
      | none ↦ err timeout
      | some e ↦ ok (end_node e (submit_node w layer_no n))
    ]
    else ok (submit_node w layer_no n)

-- `_submit_layer_nodes` and `_wait_for_layer_completion`: all the nodes of a layer.
pub run_layer : Workers → Dict String Node → ℕ → List String → Result SceneError (List NodeExec)
unfolding run_node
run_layer w nodes layer_no [] = ok []
run_layer w nodes layer_no (k ∷ ks) = elim (get k nodes) [
  | none ↦ err (no_node k)
  | some n ↦ elim (run_node w layer_no n) [
    | err x ↦ err x
    | ok x ↦ elim (run_layer w nodes layer_no ks) [ err y ↦ err y | ok xs ↦ ok (x ∷ xs) ]
  ]
]

-- `row.status == NODE_STATUS_FAILED and row.fail_strategy == "abort"`
pub aborts : NodeExec → Bool
aborts x = elim x.status [ NodeStatus.failed ↦ x.fail_strategy =? "abort" | _ ↦ false ]

-- `_collect_abort_nodes`, of the rows of a layer.
pub abort_nodes : List NodeExec → List NodeExec
unfolding aborts
abort_nodes xs = keep aborts xs

pub find_exec : String → List NodeExec → Option NodeExec
find_exec k [] = none
find_exec k (x ∷ xs) = let rest = find_exec k xs in if x.node_id =? k then some x else rest

-- A row that is there is cancelled only while it waits.
pub cancel_exec : String → NodeExec → NodeExec
cancel_exec k x =
    if x.node_id =? k
    then elim x.status [
      | NodeStatus.pending ↦ record x {
        status = NodeStatus.cancelled;
        error_msg = some "前置节点触发终止策略，已取消";
      }
      | _ ↦ x
    ]
    else x

-- The row of a node that is cancelled before it is submitted.
pub cancelled_exec : ℕ → Node → NodeExec
unfolding new_exec
cancelled_exec layer_no n = record (new_exec layer_no n) {
  status = NodeStatus.cancelled;
  error_msg = some "前置节点触发终止策略，已取消";
}

-- `_cancel_remaining_nodes`
pub cancel_remaining :
    Dict String Node
    → List (List String)
    → List String
    → List NodeExec
    → Result SceneError (List NodeExec)
unfolding find_exec cancel_exec cancelled_exec
cancel_remaining nodes layers [] xs = ok xs
cancel_remaining nodes layers (k ∷ ks) xs = elim (find_exec k xs) [
  | some x ↦ cancel_remaining nodes layers ks (map (cancel_exec k) xs)
  | none ↦ elim (get k nodes) [
    | none ↦ err (no_node k)
    | some n ↦ cancel_remaining nodes layers ks (xs ++ cancelled_exec (layer_index k layers) n ∷ [])
  ]
]

-- The loop over the layers; `layers` are all of them. The flag is `aborted`.
pub run_layers :
    Workers
    → Dict String Node
    → List (List String)
    → ℕ
    → List (List String)
    → List NodeExec
    → Result SceneError (Bool × List NodeExec)
unfolding run_layer abort_nodes cancel_remaining
run_layers w nodes layers layer_no [] xs = ok (false, xs)
run_layers w nodes layers layer_no (l ∷ ls) xs = elim (run_layer w nodes layer_no l) [
  | err e ↦ err e
  | ok ys ↦
      let go_on = run_layers w nodes layers (layer_no + 1) ls (xs ++ ys) in
      if is_empty (abort_nodes ys)
      then go_on
      else elim (cancel_remaining nodes layers (concat ls) (xs ++ ys)) [
        | err e ↦ err e
        | ok zs ↦ ok (true, zs)
      ]
]

-- The columns of df_scene_exec that a run changes.
pub record SceneExec : Type 0 where
  pub status : SceneStatus
  pub success_count : ℕ
  pub fail_count : ℕ
  pub total_rows : ℕ
  pub error_msg : Option String

pub is_ended_well : NodeExec → Bool
is_ended_well x = elim x.status [ NodeStatus.success ↦ true | _ ↦ false ]

-- `row.status in (NODE_STATUS_FAILED, NODE_STATUS_CANCELLED)`
unfoldable pub is_lost : NodeExec → Bool
is_lost x = elim x.status [ NodeStatus.failed ↦ true | NodeStatus.cancelled ↦ true | _ ↦ false ]

pub first_lost_error : List NodeExec → String
unfolding is_lost
first_lost_error [] = ""
first_lost_error (x ∷ xs) =
    let rest = first_lost_error xs in
    if is_lost x
    then elim x.error_msg [ none ↦ rest | some s ↦ if s =? "" then rest else s ]
    else rest

-- The verdict of `_finalize_scene`.
pub scene_verdict : (stopped : Bool) (success_nodes failed_nodes : ℕ) → SceneStatus
scene_verdict stopped success_nodes failed_nodes =
    if stopped
    then SceneStatus.failed
    else if failed_nodes == 0
    then SceneStatus.success
    else if success_nodes == 0
    then SceneStatus.failed
    else SceneStatus.partial

scene_error : SceneStatus → List NodeExec → Option String
unfolding first_lost_error
scene_error SceneStatus.success xs = none
scene_error _ xs = some (cut 2000 (first_lost_error xs))

-- `_finalize_scene`
pub finalize_scene : Bool → List NodeExec → SceneExec
unfolding scene_verdict scene_error is_ended_well is_lost
finalize_scene stopped xs =
    let success_nodes = length (keep is_ended_well xs) in
    let failed_nodes = length (keep is_lost xs) in
    let final = scene_verdict stopped success_nodes failed_nodes in
    record {
      status = final;
      success_count = success_nodes;
      fail_count = failed_nodes;
      total_rows = sum_by (λ x. x.success_count) xs;
      error_msg = scene_error final xs;
    }

-- `_mark_scene_failed`
pub mark_scene_failed : String → SceneExec → SceneExec
mark_scene_failed text s = record s {
  status = SceneStatus.failed;
  error_msg = some (cut 2000 text);
}

-- How a run of a scene ends.
pub data SceneReply : Type 0 where
  skipped : SceneReply
  no_nodes : SceneReply
  no_layers : DepError → SceneReply
  raised : SceneError → SceneReply
  finished : (stopped : Bool) → List NodeExec → SceneReply

is_pending : SceneStatus → Bool
is_pending SceneStatus.pending = true
is_pending _ = false

-- What follows once there are layers. The rows of a run that raises are not given.
pub run_scene : Workers → List Node → List (List String) → SceneReply
unfolding node_map run_layers
run_scene w nodes layers = elim (run_layers w (node_map nodes []) layers 0 layers []) [
  | err e ↦ raised e
  | ok (stopped, xs) ↦ finished stopped xs
]

-- `execute_scene_task`, on an execution that is there.
pub execute_scene : Workers → List Node → List Edge → SceneStatus → SceneReply
unfolding run_scene is_pending
execute_scene w nodes edges status =
    if is_pending status
    then (if is_empty nodes
        then no_nodes
        else elim (build_layers (map (λ n. n.node_id) nodes) edges) [
          | err e ↦ no_layers e
          | ok layers ↦ run_scene w nodes layers
        ])
    else skipped

-- The row of the execution after a run.
pub scene_after : (error_text : SceneReply → String) → SceneReply → SceneExec → SceneExec
unfolding finalize_scene mark_scene_failed
scene_after error_text skipped s = s
scene_after error_text (finished stopped xs) s = finalize_scene stopped xs
scene_after error_text r s = mark_scene_failed (error_text r) s

-- `retry_failed_nodes`: which rows are run again, and what their rows are while they run.
unfoldable pub is_retried : List String → NodeExec → Bool
unfolding is_lost
is_retried chosen x = if contains x.node_id chosen then is_lost x else false

pub rerun_exec : NodeExec → NodeExec
rerun_exec x = record x {
  status = NodeStatus.running;
  error_msg = none;
  success_count = 0;
  fail_count = 0;
}

-- A chosen row without its case keeps its status; the others run again and are waited for.
pub retry_exec : Workers → NodeExec → Result SceneError NodeExec
unfolding rerun_exec end_node
retry_exec w x =
    if w.has_case x.case_id
    then elim (w.end_of (record {
      node_id = x.node_id;
      case_id = x.case_id;
      target_count = x.target_count;
      fail_strategy = some x.fail_strategy;
    })) [ none ↦ err timeout | some e ↦ ok (end_node e (rerun_exec x)) ]
    else ok (record x { error_msg = some "关联 Case 不存在或已删除，无法重试" })

pub retry_execs : Workers → List String → List NodeExec → Result SceneError (List NodeExec)
unfolding is_retried retry_exec
retry_execs w chosen [] = ok []
retry_execs w chosen (x ∷ xs) = elim (if is_retried chosen x then retry_exec w x else ok x) [
  | err e ↦ err e
  | ok y ↦ elim (retry_execs w chosen xs) [ err e ↦ err e | ok ys ↦ ok (y ∷ ys) ]
]

-- The rows as the session of `retry_failed_nodes` holds them while the chosen ones run. With
-- `expire_on_commit=False` a later query gives a row that a session holds as the session holds it.
pub held_rows : (has_case : ℕ → Bool) → List String → List NodeExec → List NodeExec
unfolding is_retried rerun_exec
held_rows has_case chosen [] = []
held_rows has_case chosen (x ∷ xs) =
    (if is_retried chosen x
      then (if has_case x.case_id
          then rerun_exec x
          else record x { error_msg = some "关联 Case 不存在或已删除，无法重试" })
      else x)
    ∷ held_rows has_case chosen xs

-- `retry_failed_nodes`, on the rows of an execution. Nothing is done if no chosen row is lost. The
-- database has the ends of the nodes, and `_finalize_scene` reads what the session holds.
unfoldable pub retry_failed_nodes :
    Workers → List String → List NodeExec → SceneExec → SceneReply × SceneExec
unfolding retry_execs held_rows finalize_scene
retry_failed_nodes w chosen xs s =
    if is_empty (keep (is_retried chosen) xs)
    then (skipped, s)
    else elim (retry_execs w chosen xs) [
      | err e ↦ (raised e, record s { status = SceneStatus.running; error_msg = none })
      | ok ys ↦ (finished false ys, finalize_scene false (held_rows w.has_case chosen xs))
    ]
