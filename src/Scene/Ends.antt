-- ===== src/Scene/Ends.antt =====
-- A run over known nodes ends with its rows, or when a layer does not end in time.
use data_factory.Base.{
  ℕ, ◌+◌, ◌<◌, ◌≡◌, refl, ◌∙◌, String, Bool, true, false, some, List, [], ◌∷◌, ◌++◌, map, ◌=?◌,
  =?_refl, string_eq, is_empty, All, Bool-cases, Option-cases, ◌⊎◌, inl, inr, arith,
}
use data_factory.Base.Count.{count, contains}
use data_factory.Base.Dict.{Dict, get, put, get-put}
use data_factory.Base.Result.{ok, err}
use data_factory.DepAnalyzer.{Edge, build_layers}
use data_factory.DepAnalyzer.Layers.{concat, layer_index, build_layers-ordered}
use data_factory.Scene.{
  SceneStatus, Node, NodeExec, Workers, SceneError, timeout, node_map, cancelled_exec, run_node,
  run_layer, cancel_remaining, find_exec, cancel_exec, abort_nodes, run_layers, run_scene,
  execute_scene, finished, raised,
}
use data_factory.Scene.Runs.{Result-cases}
use data_factory.Scene.Complete.{ids}

-- The names have nodes.
abbrev Known : Dict String Node → List String → Type 0
Known d ks = All (λ k. (n : Node) × (get k d ≡ some n)) ks

Known-append :
    (d : Dict String Node) (xs ys : List String) → Known d (xs ++ ys) → Known d xs × Known d ys
Known-append d [] ys h = (tt, h)
Known-append d (x ∷ xs) ys (p, h) = let (a, b) = Known-append d xs ys h in ((p, a), b)

run_node-timeout :
    (w : Workers) (i : ℕ) (n : Node) (x : SceneError)
    → run_node w i n ≡ err x
    → run_node w i n ≡ err timeout
unfolding run_node
run_node-timeout w i n x h = elim (Bool-cases (w.has_case n.case_id)) [
  | inr miss ↦ absurd (cc (rw (miss, run_node) at h))
  | inl hit ↦ elim (Option-cases (w.end_of n)) [
    | inl e ↦ rw (hit, e, run_node) refl
    | inr (z, e) ↦ absurd (cc (rw (hit, e, run_node) at h))
  ]
]

run_node-Ends :
    (w : Workers) (i : ℕ) (n : Node)
    → ((x : NodeExec) × (run_node w i n ≡ ok x)) ⊎ (run_node w i n ≡ err timeout)
run_node-Ends w i n = elim (Result-cases (run_node w i n)) [
  | inl r ↦ inl r
  | inr (x, h) ↦ inr (run_node-timeout w i n x h)
]

run_layer-Ends :
    (w : Workers) (d : Dict String Node) (i : ℕ) (ks : List String)
    → Known d ks
    → ((xs : List NodeExec) × (run_layer w d i ks ≡ ok xs)) ⊎ (run_layer w d i ks ≡ err timeout)
unfolding run_layer
run_layer-Ends w d i [] h = inl ([], refl)
run_layer-Ends w d i (k ∷ ks) ((n, e), h) = elim (run_node-Ends w i n) [
  | inr f ↦ inr (rw (e, f, run_layer) refl)
  | inl (x, f) ↦ elim (run_layer-Ends w d i ks h) [
    | inr g ↦ inr (rw (e, f, g, run_layer) refl)
    | inl (xs, g) ↦ inl (x ∷ xs, rw (e, f, g, run_layer) refl)
  ]
]

cancel_remaining-ok :
    (d : Dict String Node) (layers : List (List String)) (ks : List String) (xs : List NodeExec)
    → Known d ks
    → (zs : List NodeExec) × (cancel_remaining d layers ks xs ≡ ok zs)
unfolding cancel_remaining
cancel_remaining-ok d layers [] xs h = (xs, refl)
cancel_remaining-ok d layers (k ∷ ks) xs ((n, e), h) = elim (Option-cases (find_exec k xs)) [
  | inl f ↦
      let (zs, g) =
        cancel_remaining-ok d layers ks (xs ++ cancelled_exec (layer_index k layers) n ∷ []) h in
      (zs, rw (f, e, cancel_remaining) g)
  | inr (x, f) ↦
      let (zs, g) = cancel_remaining-ok d layers ks (map (cancel_exec k) xs) h in
      (zs, rw (f, cancel_remaining) g)
]

run_layers-Ends :
    (w : Workers) (d : Dict String Node) (layers : List (List String)) (i : ℕ)
    (ls : List (List String)) (xs : List NodeExec)
    → Known d (concat ls)
    → ((flag : Bool) × (zs : List NodeExec) × (run_layers w d layers i ls xs ≡ ok (flag, zs)))
      ⊎ (run_layers w d layers i ls xs ≡ err timeout)
unfolding run_layers
run_layers-Ends w d layers i [] xs h = inl (false, xs, refl)
run_layers-Ends w d layers i (l ∷ ls) xs h =
    let (now, later) = Known-append d l (concat ls) h in
    elim (run_layer-Ends w d i l now) [
      | inr e ↦ inr (rw (e, run_layers) refl)
      | inl (ys, e) ↦ elim (Bool-cases (is_empty (abort_nodes ys))) [
        | inl calm ↦ elim (run_layers-Ends w d layers (i + 1) ls (xs ++ ys) later) [
          | inl (flag, zs, f) ↦ inl (flag, zs, rw (e, calm, run_layers) f)
          | inr f ↦ inr (rw (e, calm, run_layers) f)
        ]
        | inr stop ↦
            let (zs, f) = cancel_remaining-ok d layers (concat ls) (xs ++ ys) later in
            inl (true, zs, rw (e, stop, f, run_layers) refl)
      ]
    ]

node_map-known :
    (ns : List Node) (d : Dict String Node) (k : String)
    → ((n : Node) × (get k d ≡ some n)) ⊎ (contains k (ids ns) ≡ true)
    → (n : Node) × (get k (node_map ns d) ≡ some n)
unfolding node_map
node_map-known [] d k (inl h) = h
node_map-known [] d k (inr h) = absurd (cc h)
node_map-known (n ∷ ns) d k h =
    node_map-known ns (put n.node_id n d) k (elim (Bool-cases (n.node_id =? k)) [
      | inl hit ↦ inl (n, get-put n.node_id k n d ∙ rw hit refl)
      | inr miss ↦ elim h [
        | inl (m, e) ↦ inl (m, get-put n.node_id k n d ∙ rw miss e)
        | inr e ↦ inr (rw miss at e)
      ]
    ])

all-Known :
    (d : Dict String Node) (ks : List String)
    → ((k : String) → 0 < count k ks → (n : Node) × (get k d ≡ some n))
    → Known d ks
all-Known d [] h = tt
all-Known d (k ∷ ks) h =
    (h k (ground (arith, =?_refl k)), all-Known d ks (λ j e. h j (omega (arith, e))))

In-contains : (k : String) (xs : List String) → 0 < count k xs → contains k xs ≡ true
In-contains k [] h = absurd (omega (arith, h))
In-contains k (x ∷ xs) h = ground (arith, h, In-contains k xs)

-- With layers for its nodes, the execution of a scene is finished, or a layer does not end in time.
pub execute_scene-Ends :
    (w : Workers) (nodes : List Node) (edges : List Edge) (layers : List (List String))
    → is_empty nodes ≡ false
    → build_layers (ids nodes) edges ≡ ok layers
    → ((flag : Bool) × (xs : List NodeExec) × (execute_scene w nodes edges SceneStatus.pending
          ≡ finished flag xs))
      ⊎ (execute_scene w nodes edges SceneStatus.pending ≡ raised timeout)
unfolding execute_scene run_scene
execute_scene-Ends w nodes edges layers full built =
    let same = (build_layers-ordered (ids nodes) edges layers built).0 in
    let known = all-Known (node_map nodes []) (concat layers) (λ k e.
      node_map-known nodes [] k (inr (In-contains k (ids nodes) (omega (arith, e, same k))))) in
    elim (run_layers-Ends w (node_map nodes []) layers 0 layers [] known) [
      | inl (flag, xs, e) ↦ inl (flag, xs, rw (full, built, e, execute_scene, run_scene) refl)
      | inr e ↦ inr (rw (full, built, e, execute_scene, run_scene) refl)
    ]
