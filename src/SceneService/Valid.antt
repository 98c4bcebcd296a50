-- ===== src/SceneService/Valid.antt =====
-- A scene that passed `_validate_scene_payload` can be run by backend/app/engine/scene_executor.py.
use data_factory.Base.{
  ℕ, ◌≤◌, ◌≡◌, refl, String, Bool, true, false, Option, List, [], ◌∷◌, if◌then◌else◌, ◌==◌, =?_iff,
  string_eq, ltb, length, any, all, is_empty, ◌⊎◌, inl, inr, arith,
}
use data_factory.Base.Count.{count, Distinct, length-SameItems, not_contains-count}
use data_factory.Base.Result.{Result, ok, err, raise_if, ◌>>◌}
use data_factory.DepAnalyzer.{Edge, build_layers}
use data_factory.Scene.{
  SceneStatus, Node, NodeExec, Workers, timeout, execute_scene, finished, raised,
}
use data_factory.Scene.Runs.{Result-cases}
use data_factory.Scene.Complete.{ids, Complete, execute_scene-Complete}
use data_factory.Scene.Ends.{execute_scene-Ends}
use data_factory.TaskService.Types.{User}
use data_factory.SceneService.{
  SceneFault, scene_name_taken, scene_node_too_few, param_invalid, scene_target_count_missing,
  SceneCase, set_of, has_duplicates, check_edges, check_cycle, validate_scene_payload, ExecMode,
  detect_exec_mode,
}

-- What `check` passes on.
pub raise_if-ok :
    {A : Type 0} (c : Bool) (x : SceneFault) (k : Result SceneFault A) {a : A}
    → (raise_if c x >> k) ≡ ok a
    → (c ≡ false) × (k ≡ ok a)
raise_if-ok true x k h = absurd (cc h)
raise_if-ok false x k h = (refl, h)

>>-ok :
    {A : Type 0} (m : Result SceneFault (Unit {0})) (k : Result SceneFault A) {a : A}
    → (m >> k) ≡ ok a
    → (m ≡ ok tt) × (k ≡ ok a)
>>-ok (ok u) k h = (refl, h)
>>-ok (err x) k h = absurd (cc h)

count-set_of :
    (k : String) (xs : List String) → (count k (set_of xs) ≤ 1) × (count k (set_of xs) ≤ count k xs)
unfolding set_of
count-set_of k [] = (omega arith, omega arith)
count-set_of k (x ∷ xs) =
    let (once, fewer) = count-set_of k xs in
    (ground (arith, =?_iff x k, not_contains-count x (set_of xs)), ground (arith, fewer))

has_duplicates-Distinct : (xs : List String) → has_duplicates xs ≡ false → Distinct xs
unfolding has_duplicates
has_duplicates-Distinct xs h k =
    let same = length-SameItems (set_of xs) xs (λ j. (count-set_of j xs).1) (ground (arith, h)) in
    omega (arith, same k, (count-set_of k xs).0)

-- The parts of the validation that a run relies on.
pub record Runnable (nodes : List Node) (edges : List Edge) : Type 0 where
  pub distinct : Distinct (ids nodes)
  pub some_nodes : is_empty nodes ≡ false
  pub layered : (layers : List (List String)) × (build_layers (ids nodes) edges ≡ ok layers)

check_cycle-ok :
    (ks : List String) (edges : List Edge)
    → check_cycle ks edges ≡ ok tt
    → (layers : List (List String)) × (build_layers ks edges ≡ ok layers)
unfolding check_cycle
check_cycle-ok ks edges h = elim (Result-cases (build_layers ks edges)) [
  | inl (layers, e) ↦ (layers, e)
  | inr (x, e) ↦ absurd (cc (rw (e, check_cycle) at h))
]

two_nodes : (nodes : List Node) → ltb (length nodes) 2 ≡ false → is_empty nodes ≡ false
two_nodes [] h = absurd (cc h)
two_nodes (n ∷ ns) h = refl

pub validate_scene_payload-Runnable :
    (taken : Bool) (case_map : ℕ → Option SceneCase) (user : User) (nodes : List Node)
    (edges : List Edge)
    → validate_scene_payload taken case_map user nodes edges ≡ ok tt
    → Runnable nodes edges
unfolding validate_scene_payload
validate_scene_payload-Runnable taken case_map user nodes edges h =
    let ks = ids nodes in
    let (_, h1) = raise_if-ok taken scene_name_taken _ h in
    let (few, h2) = raise_if-ok (ltb (length nodes) 2) scene_node_too_few _ h1 in
    let (doubled, h3) = raise_if-ok (has_duplicates ks) param_invalid _ h2 in
    let (_, h4) =
      raise_if-ok (any (λ (n : Node). n.target_count == 0) nodes) scene_target_count_missing _ h3 in
    let (_, h5) = >>-ok (check_edges ks edges) _ h4 in
    let (acyclic, _) = >>-ok (check_cycle ks edges) _ h5 in
    record {
      distinct = has_duplicates-Distinct ks doubled;
      some_nodes = two_nodes nodes few;
      layered = check_cycle-ok ks edges acyclic;
    }

detected :
    (nodes : List Node) (edges : List Edge) (layers : List (List String))
    → build_layers (ids nodes) edges ≡ ok layers
    → (mode : ExecMode) × (detect_exec_mode nodes edges ≡ ok mode)
unfolding detect_exec_mode
detected nodes [] layers e = (ExecMode.parallel, refl)
detected nodes (x ∷ es) layers e = (
  if all (λ l. length l == 1) layers then ExecMode.serial else ExecMode.mixed,
  rw (e, detect_exec_mode) refl,
)

-- A scene that may be saved can be run: its mode is found, and whatever becomes of its nodes, its execution
-- either waits in vain for a layer, or it is finished with one ended row for each node and a verdict that
-- fits the rows. It never fails for want of a node or of layers.
pub validate_scene_payload-Runs :
    (taken : Bool) (case_map : ℕ → Option SceneCase) (user : User) (nodes : List Node)
    (edges : List Edge)
    → validate_scene_payload taken case_map user nodes edges ≡ ok tt
    → (w : Workers)
    → ((mode : ExecMode) × (detect_exec_mode nodes edges ≡ ok mode))
      × (((flag : Bool) × (xs : List NodeExec) × (execute_scene w nodes edges SceneStatus.pending
              ≡ finished flag xs)
            × Complete nodes edges flag xs)
          ⊎ (execute_scene w nodes edges SceneStatus.pending ≡ raised timeout))
validate_scene_payload-Runs taken case_map user nodes edges h w =
    let r = validate_scene_payload-Runnable taken case_map user nodes edges h in
    let (layers, built) = r.layered in
    (
      detected nodes edges layers built,
      elim (execute_scene-Ends w nodes edges layers r.some_nodes built) [
        | inr e ↦ inr e
        | inl (flag, xs, e) ↦ inl (
          flag,
          xs,
          e,
          execute_scene-Complete w nodes edges SceneStatus.pending flag xs r.distinct e,
        )
      ],
    )
