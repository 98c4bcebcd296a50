-- ===== src/Scene/Complete.antt =====
-- What `execute_scene_task` leaves: one row for each node, and a verdict that fits the rows.
use data_factory.Base.{
  ◌+◌, ◌<◌, ◌≡◌, ◌↔◌, ap, ◌∙◌, String, Bool, true, false, List, [], ◌∷◌, map, string_eq, length,
  length-map, keep, any, is_empty, All, Bool-cases, inl, inr, arith,
}
use data_factory.Base.Count.{length-le_of_count, Distinct, SameItems}
use data_factory.Base.Dict.{get}
use data_factory.Base.Result.{ok}
use data_factory.DepAnalyzer.{Edge, build_layers}
use data_factory.DepAnalyzer.Layers.{concat, build_layers-ordered}
use data_factory.Scene.{
  SceneStatus, Node, NodeExec, Workers, node_map, aborts, run_layers, is_ended_well, is_lost,
  scene_verdict, finalize_scene, finished, run_scene, execute_scene,
}
use data_factory.Scene.Runs.{names, Ended, Named, node_map-Named, run_layers-Adds, Result-cases}

abbrev pub ids : List Node → List String
ids nodes = map (λ n. n.node_id) nodes

-- What the rows of a scene that is finished say, and what `_finalize_scene` makes of them.
pub record Complete (nodes : List Node) (edges : List Edge) (flag : Bool) (xs : List NodeExec)
    : Type 0 where
  pub layered :
      (layers : List (List String)) × (build_layers (ids nodes) edges ≡ ok layers)
      × (names xs ≡ concat layers)
  pub each_once : SameItems (names xs) (ids nodes)
  pub ended : All Ended xs
  pub flagged : any aborts xs ≡ flag
  pub counted :
      (finalize_scene flag xs).success_count + (finalize_scene flag xs).fail_count ≡ length nodes
  pub verdict :
      ((finalize_scene flag xs).status ≡ SceneStatus.success)
      ↔ ((finalize_scene flag xs).fail_count ≡ 0)

Ended-length :
    (xs : List NodeExec)
    → All Ended xs
    → length (keep is_ended_well xs) + length (keep is_lost xs) ≡ length xs
unfolding is_ended_well is_lost
Ended-length [] h = omega arith
Ended-length (x ∷ xs) (e, h) = ground (arith, Ended-length xs h)

aborts-is_lost : (xs : List NodeExec) → any aborts xs ≡ true → 0 < length (keep is_lost xs)
unfolding aborts is_lost
aborts-is_lost [] h = cc
aborts-is_lost (x ∷ xs) h = ground (arith, aborts-is_lost xs)

SameItems-length : (xs ys : List String) → SameItems xs ys → length xs ≡ length ys
SameItems-length xs ys same = omega (
  arith,
  length-le_of_count xs ys (λ k. omega (arith, same k)),
  length-le_of_count ys xs (λ k. omega (arith, same k)),
)

-- An execution that no node has stopped is a success when no node failed, and only then.
pub finalize_scene-runs :
    (xs : List NodeExec)
    → ((finalize_scene false xs).status ≡ SceneStatus.success)
      ↔ ((finalize_scene false xs).fail_count ≡ 0)
unfolding finalize_scene scene_verdict
finalize_scene-runs xs = (λ x. ground (arith, x), λ x. ground (arith, x))

finalize_scene-verdict :
    (flag : Bool) (xs : List NodeExec)
    → any aborts xs ≡ flag
    → ((finalize_scene flag xs).status ≡ SceneStatus.success)
      ↔ ((finalize_scene flag xs).fail_count ≡ 0)
unfolding finalize_scene scene_verdict
finalize_scene-verdict true xs h =
    (λ x. absurd (cc x), λ x. absurd (omega (arith, x, aborts-is_lost xs h)))
finalize_scene-verdict false xs h = finalize_scene-runs xs

nil-Named : Named []
unfolding get
nil-Named k n h = absurd (cc h)

run_scene-Complete :
    (w : Workers) (nodes : List Node) (edges : List Edge) (layers : List (List String))
    (flag : Bool) (xs : List NodeExec)
    → Distinct (ids nodes)
    → build_layers (ids nodes) edges ≡ ok layers
    → run_layers w (node_map nodes []) layers 0 layers [] ≡ ok (flag, xs)
    → Complete nodes edges flag xs
unfolding finalize_scene
run_scene-Complete w nodes edges layers flag xs distinct built run =
    let same = (build_layers-ordered (ids nodes) edges layers built).0 in
    let a =
      run_layers-Adds w (node_map nodes []) (node_map-Named nodes [] nil-Named) layers 0 layers []
        flag xs (λ k. omega (arith, same k, distinct k)) run in
    let e : xs ≡ a.added = a.all in
    let named : names xs ≡ concat layers = ap names e ∙ a.named in
    let flagged : any aborts xs ≡ flag = ap (any aborts) e ∙ a.flagged in
    let ended : All Ended xs = rw e a.ended in
    let each : SameItems (names xs) (ids nodes) = rw named same in
    let n = SameItems-length (names xs) (ids nodes) each in
    record {
      layered = (layers, built, named);
      each_once = each;
      ended = ended;
      flagged = flagged;
      counted = omega (
        arith,
        n,
        Ended-length xs ended,
        length-map (λ (x : NodeExec). x.node_id) xs,
        length-map (λ (n : Node). n.node_id) nodes,
      );
      verdict = finalize_scene-verdict flag xs flagged;
    }

finished-injective :
    {a b : Bool} {xs ys : List NodeExec} → finished a xs ≡ finished b ys → (a ≡ b) × (xs ≡ ys)
finished-injective h = (cc, cc)

run_scene-ran :
    (w : Workers) (nodes : List Node) (layers : List (List String)) (flag : Bool)
    (xs : List NodeExec)
    → run_scene w nodes layers ≡ finished flag xs
    → run_layers w (node_map nodes []) layers 0 layers [] ≡ ok (flag, xs)
unfolding run_scene
run_scene-ran w nodes layers flag xs h =
    elim (Result-cases (run_layers w (node_map nodes []) layers 0 layers [])) [
      | inr (e, f) ↦ absurd (cc (rw (f, run_scene) at h))
      | inl (r, f) ↦
          f ∙ ap ok (let same = finished-injective (rw (f, run_scene) at h) in cc (same.0, same.1))
    ]

-- A scene of distinct nodes that is finished has one ended row for each node, in the order of its
-- layers; it is aborted when a node with the strategy "abort" failed and only then; its two counts
-- add up to the nodes, and it is a success when no node failed or was cancelled and only then.
pub execute_scene-Complete :
    (w : Workers) (nodes : List Node) (edges : List Edge) (status : SceneStatus) (flag : Bool)
    (xs : List NodeExec)
    → Distinct (ids nodes)
    → execute_scene w nodes edges status ≡ finished flag xs
    → Complete nodes edges flag xs
unfolding execute_scene
execute_scene-Complete w nodes edges SceneStatus.pending flag xs distinct h =
    elim (Bool-cases (is_empty nodes)) [
      | inl empty ↦ absurd (cc (rw (empty, execute_scene) at h))
      | inr full ↦ elim (Result-cases (build_layers (ids nodes) edges)) [
        | inr (e, f) ↦ absurd (cc (rw (full, f, execute_scene) at h))
        | inl (layers, f) ↦
            run_scene-Complete w nodes edges layers flag xs distinct f
              (run_scene-ran w nodes layers flag xs (rw (full, f, execute_scene) at h))
      ]
    ]
execute_scene-Complete w nodes edges _ flag xs distinct h = absurd (cc h)
