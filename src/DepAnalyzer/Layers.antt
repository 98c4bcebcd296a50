-- ===== src/DepAnalyzer/Layers.antt =====
-- `build_layers`: what a result says, when there is one, and that the loop ends.
use data_factory.Base.{
  ℕ, zero, suc, ◌+◌, ◌≤◌, ◌<◌, String, ◌≡◌, refl, sym, ◌∙◌, ap, true, false, ◌⊎◌, inl, inr,
  Bool-cases, List, [], ◌∷◌, ◌++◌, append_assoc, append-nil, if◌then◌else◌, =?_iff, string_eq,
  arith, length, length-append, sum_by,
}
use data_factory.Base.Count.{
  count, contains, contains-In, not_contains-count, In, count-append, length-le_of_count, SameItems,
  length-SameItems, Distinct, Distinct-count,
}
use data_factory.Base.Result.{ok, err}
use data_factory.DepAnalyzer.{
  Edge, Degrees, Graph, cycle, key_error, successors, load, zeros, roots, layer_loop, check_layers,
  build_layers,
}
use data_factory.DepAnalyzer.Degrees.{targets, Ends, zeros-Tracks}
use data_factory.DepAnalyzer.Release.{release_layer-flat}
use data_factory.DepAnalyzer.Progress.{left, Holds, step-Holds}
use data_factory.DepAnalyzer.Fuel.{
  HasEdge, Ranked, left-pos, start-Holds, load_cases, Holds-fits, all_done,
}

-- `layer_of[n]`: the number of the layer that holds `n`.
abbrev pub layer_index : String → List (List String) → ℕ
layer_index n [] = 0
layer_index n (l ∷ ls) = if contains n l then 0 else suc (layer_index n ls)

abbrev pub concat : List (List String) → List String
concat [] = []
concat (l ∷ ls) = l ++ concat ls

-- All the sources of each layer's nodes stand in `done` or in an earlier layer.
abbrev Staged : List Edge → List String → List (List String) → Type 0
Staged es done [] = Unit
Staged es done (l ∷ ls) = ((m : String) → In m l → left done m es ≡ 0) × Staged es (done ++ l) ls

Staged-layer_index :
    (es : List Edge) (done : List String) (ls : List (List String)) (s t : String)
    → Staged es done ls
    → HasEdge s t es
    → count s done ≡ 0
    → In t (concat ls)
    → layer_index s ls < layer_index t ls
Staged-layer_index es done [] s t h e u i = elim i [ ]
Staged-layer_index es done (l ∷ ls) s t (now, h) e u i = elim (Bool-cases (contains t l)) [
  | inl here ↦ absurd (omega (arith, now t (contains-In t l here), left-pos done s t es e u))
  | inr later ↦ elim (Bool-cases (contains s l)) [
    | inl first ↦ rw (first, later) (omega arith)
    | inr not_yet ↦
        rw (not_yet, later)
          (omega (
            arith,
            Staged-layer_index es (done ++ l) ls s t h e
                (omega (arith, count-append s done l, not_contains-count s l not_yet))
                (omega (arith, count-append t l (concat ls), not_contains-count t l later)),
          ))
  ]
]

length-concat : (ls : List (List String)) → length (concat ls) ≡ sum_by length ls
length-concat [] = refl
length-concat (l ∷ ls) = omega (arith, length-append l (concat ls), length-concat ls)

module _ (ks : List String) (es : List Edge) (g : Graph) (ends : Ends ks es)
    (graph : (s : String) → successors s g ≡ targets s es) where
  -- The loop returns what it was given, and layers that finish the work.
  layer_loop-Staged :
      (fuel : ℕ) (d : Degrees) (done queue : List String) (layers : List (List String))
      → length ks < length done + fuel
      → Holds ks es d done queue
      → (ls : List (List String)) × (d' : Degrees) × (layer_loop fuel g d queue layers
          ≡ ok (layers ++ ls))
        × Staged es done ls
        × Holds ks es d' (done ++ concat ls) []
  unfolding layer_loop
  layer_loop-Staged zero d done queue layers f h =
      absurd (omega (arith, length-le_of_count done ks (λ m. omega (arith, Holds-fits h m))))
  layer_loop-Staged (suc fuel) d done [] layers f h =
      ([], d, ap ok (sym (append-nil layers)), tt, rw (append-nil done) h)
  layer_loop-Staged (suc fuel) d done (n ∷ ns) layers f h =
      let chunk = n ∷ ns in
      let (d', q', e, h') =
        step-Holds ks es g ends graph d done chunk [] (rw (append-nil chunk) h) in
      let (ls, d'', e', staged, final) =
        layer_loop-Staged fuel d' (done ++ chunk) q' (layers ++ chunk ∷ [])
          (omega (arith, length-append done chunk)) h' in
      (
        chunk ∷ ls,
        d'',
        rw (release_layer-flat g chunk d [], e) (e' ∙ ap ok (append_assoc layers (chunk ∷ []) ls)),
        (λ m i. ground (arith, h.queued m), staged),
        rw append_assoc at final,
      )

-- A run on edges that end in nodes: the loop ends with layers, which the size check then judges.
build_layers_run :
    (nodes : List String) (edges : List Edge)
    → Ends nodes edges
    → (ls : List (List String)) × (d : Degrees) × (build_layers nodes edges
        ≡ check_layers (length nodes) ls)
      × Staged edges [] ls
      × Holds nodes edges d (concat ls) []
unfolding build_layers
build_layers_run nodes edges ends =
    let (g, d, e, graph, h) = start-Holds nodes edges ends in
    let (ls, d', e', staged, final) =
      layer_loop-Staged nodes edges g ends graph (suc (length nodes)) d [] (roots d) []
        (omega arith) h in
    (ls, d', rw (e, e'), staged, final)

check_layers-ok :
    (size : ℕ) (ls layers : List (List String))
    → check_layers size ls ≡ ok layers
    → (ls ≡ layers) × (sum_by length ls ≡ size)
unfolding check_layers
check_layers-ok size ls layers h = ground arith

check_layers_full :
    (size : ℕ) (ls : List (List String)) → sum_by length ls ≡ size → check_layers size ls ≡ ok ls
unfolding check_layers
check_layers_full size ls h = ground arith

check_layers_cases :
    (size : ℕ) (ls : List (List String))
    → (check_layers size ls ≡ ok ls) ⊎ (check_layers size ls ≡ err cycle)
unfolding check_layers
check_layers_cases size ls = ground arith

-- With an edge to an unknown node there is no result.
build_layers_unknown :
    (nodes : List String) (edges : List Edge) (t : String)
    → load edges [] (zeros nodes []) ≡ err (key_error t)
    → build_layers nodes edges ≡ err (key_error t)
unfolding build_layers
build_layers_unknown nodes edges t e = rw e

-- Every run ends: with layers, with the error of a cycle, or with a `KeyError` for the target of an
-- edge that is not a node. The loop's fuel is never used up.
pub build_layers_total :
    (nodes : List String) (edges : List Edge)
    → ((layers : List (List String)) × (build_layers nodes edges ≡ ok layers))
      ⊎ ((build_layers nodes edges ≡ err cycle)
          ⊎ ((t : String) × (build_layers nodes edges ≡ err (key_error t))
              × (contains t nodes ≡ false)))
build_layers_total nodes edges =
    elim (load_cases nodes edges (λ _. 0) [] (zeros nodes []) (zeros-Tracks nodes)) [
      | inl ends ↦
          let (ls, d, e, staged, h) = build_layers_run nodes edges ends in
          elim (check_layers_cases (length nodes) ls) [
            | inl done ↦ inl (ls, e ∙ done)
            | inr fails ↦ inr (inl (e ∙ fails))
          ]
      | inr (t, e, u) ↦ inr (inr (t, build_layers_unknown nodes edges t e, u))
    ]

-- If there are layers, then every edge ends in a node.
ok-Ends :
    (nodes : List String) (edges : List Edge) (layers : List (List String))
    → build_layers nodes edges ≡ ok layers
    → Ends nodes edges
ok-Ends nodes edges layers h =
    elim (load_cases nodes edges (λ _. 0) [] (zeros nodes []) (zeros-Tracks nodes)) [
      | inl ends ↦ ends
      | inr (t, e, u) ↦ absurd (cc (build_layers_unknown nodes edges t e, h))
    ]

Ends-known :
    (ks : List String) (es : List Edge) (s t : String)
    → Ends ks es
    → HasEdge s t es
    → contains t ks ≡ true
Ends-known ks [] s t ends h = elim h [ ]
Ends-known ks ((r, k) ∷ es) s t (known, ends) h =
    ground (arith, Ends-known ks es s t ends, =?_iff k t)

-- If there are layers, they hold the nodes, each as often as it was given, and each edge leads from a layer to a
-- later one.
pub build_layers-ordered :
    (nodes : List String) (edges : List Edge) (layers : List (List String))
    → build_layers nodes edges ≡ ok layers
    → SameItems (concat layers) nodes
      × ((s t : String) → HasEdge s t edges → layer_index s layers < layer_index t layers)
build_layers-ordered nodes edges layers h =
    let ends = ok-Ends nodes edges layers h in
    let (ls, d, e, staged, final) = build_layers_run nodes edges ends in
    let (same, size) = check_layers-ok (length nodes) ls layers (sym e ∙ h) in
    let items : SameItems (concat ls) nodes =
      length-SameItems (concat ls) nodes (λ m. omega (arith, Holds-fits final m))
        (length-concat ls ∙ size) in
    rw (← same) (
      items,
      λ s t x.
          Staged-layer_index edges [] ls s t staged x refl
            (omega (arith, items t, contains-In t nodes (Ends-known nodes edges s t ends x))),
    )

-- Distinct nodes whose edges join known nodes and follow a rank are always layered.
pub build_layers_complete :
    (nodes : List String) (edges : List Edge) (rank : String → ℕ)
    → Distinct nodes
    → Ends nodes edges
    → ((s t : String) → HasEdge s t edges → contains s nodes ≡ true)
    → Ranked rank edges
    → (layers : List (List String)) × (build_layers nodes edges ≡ ok layers)
build_layers_complete nodes edges rank distinct ends known ranked =
    let (ls, d, e, staged, final) = build_layers_run nodes edges ends in
    let done : (m : String) → contains m nodes ≡ true → count m (concat ls) ≡ 1 = λ m k.
      all_done nodes edges d (concat ls) rank known ranked final (suc (rank m)) m (omega arith) k in
    let enough : length nodes ≤ length (concat ls) =
      length-le_of_count nodes (concat ls)
        (λ m. ground (arith, done m, Distinct-count m nodes distinct)) in
    let fits : length (concat ls) ≤ length nodes =
      length-le_of_count (concat ls) nodes (λ m. omega (arith, Holds-fits final m)) in
    (ls, e ∙ check_layers_full (length nodes) ls (omega (arith, length-concat ls)))
