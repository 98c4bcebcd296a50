-- ===== src/DepAnalyzer/Samples.antt =====
-- Small graphs: what the analyzer answers, and the theorems at them.
use data_factory.Base.{
  ℕ, ◌<◌, ◌≡◌, refl, String, none, some, List, [], ◌∷◌, ◌=?◌, =?_iff, string_eq, Bool, Bool-cases,
  true, false, All, if◌then◌else◌, arith, ◌⊎◌, inl, inr,
}
use data_factory.Base.Count.{contains, Distinct, SameItems, In, not_contains-count}
use data_factory.Base.Dict.{get, put}
use data_factory.Base.Result.{ok, err}
use data_factory.DepAnalyzer.{
  Edge, Link, self_association, cycle, key_error, successors, add_successor, increment, load, zeros,
  roots, release, release_layer, layer_loop, check_layers, build_layers, source_of, add_new,
  collect, order_loop, check_order, build_insert_order,
}
use data_factory.DepAnalyzer.Fuel.{HasEdge, Ranked}
use data_factory.DepAnalyzer.Collect.{from}
use data_factory.DepAnalyzer.Layers.{
  concat, layer_index, build_layers-ordered, build_layers_complete, build_layers_total,
}
use data_factory.DepAnalyzer.InsertOrder.{
  InOrder, build_insert_order-ordered, build_insert_order_complete, build_insert_order_total,
}

abbrev nodes : List String
nodes = "a" ∷ "b" ∷ "c" ∷ "d" ∷ []

-- A diamond.
abbrev edges : List Edge
edges = ("a", "b") ∷ ("a", "c") ∷ ("b", "d") ∷ ("c", "d") ∷ []

abbrev layers : List (List String)
layers = ("a" ∷ []) ∷ ("b" ∷ "c" ∷ []) ∷ ("d" ∷ []) ∷ []

diamond : build_layers nodes edges ≡ ok layers
unfolding build_layers load zeros roots layer_loop release_layer release successors add_successor
    increment get put check_layers
diamond = refl

loop_is_refused : build_layers nodes (("d", "a") ∷ edges) ≡ err cycle
unfolding build_layers load zeros roots layer_loop release_layer release successors add_successor
    increment get put check_layers
loop_is_refused = refl

-- How deep a node of the diamond stands.
abbrev rank : String → ℕ
rank n = if "a" =? n then 0 else if "d" =? n then 2 else 1

All-Ranked : (f : String → ℕ) (es : List Edge) → All (λ e. f e.0 < f e.1) es → Ranked f es
All-Ranked f [] all s t h = absurd (omega arith)
All-Ranked f ((r, u) ∷ es) (here, all) s t h =
    let later = All-Ranked f es all s t in
    elim (Bool-cases (r =? s)) [
      | inr miss ↦ later (omega (arith, rw miss at h))
      | inl hit ↦ elim (Bool-cases (u =? t)) [
        | inr miss ↦ later (omega (arith, rw (hit, miss) at h))
        | inl same ↦ rw (← (=?_iff r s).0 hit, ← (=?_iff u t).0 same) here
      ]
    ]

build_layers-ordered_example :
    SameItems (concat layers) nodes
    × ((s t : String) → HasEdge s t edges → layer_index s layers < layer_index t layers)
build_layers-ordered_example = build_layers-ordered nodes edges layers diamond

build_layers_total_example :
    ((ls : List (List String)) × (build_layers nodes edges ≡ ok ls))
    ⊎ ((build_layers nodes edges ≡ err cycle)
        ⊎ ((t : String) × (build_layers nodes edges ≡ err (key_error t))
            × (contains t nodes ≡ false)))
build_layers_total_example = build_layers_total nodes edges

known : (s t : String) → HasEdge s t edges → contains s nodes ≡ true
known s t h = ground arith

different : List String → Bool
different [] = true
different (x ∷ xs) = let rest = different xs in if contains x xs then false else rest

different-Distinct : (xs : List String) → different xs ≡ true → Distinct xs
unfolding different
different-Distinct [] h k = omega arith
different-Distinct (x ∷ xs) h k = elim (Bool-cases (contains x xs)) [
  | inl again ↦ absurd (cc (rw again at h))
  | inr new ↦ elim (Bool-cases (x =? k)) [
    | inl hit ↦ let same = (=?_iff x k).0 hit in ground (arith, not_contains-count x xs new, same)
    | inr miss ↦ rw miss (omega (arith, different-Distinct xs (rw new at h) k))
  ]
]

distinct : Distinct nodes
unfolding different
distinct = different-Distinct nodes refl

build_layers_complete_example : (ls : List (List String)) × (build_layers nodes edges ≡ ok ls)
build_layers_complete_example =
    build_layers_complete nodes edges rank distinct (refl, (refl, (refl, (refl, tt)))) known
      (All-Ranked rank edges (omega arith, (omega arith, (omega arith, (omega arith, tt)))))

abbrev links : List Link
links =
    record { source_table = none; target_table = "item" }
    ∷ record { source_table = some "user"; target_table = "order" }
    ∷ []

abbrev link_order : List String
link_order = "user" ∷ "order" ∷ "item" ∷ []

-- The main table is not the first of the order: it has a source of its own.
main_is_second : build_insert_order "order" links ≡ ok link_order
unfolding build_insert_order collect source_of add_new load zeros roots order_loop release
    successors add_successor increment get put check_order
main_is_second = refl

build_insert_order-ordered_example :
    Distinct link_order × In "order" link_order × All (InOrder "order" link_order) links
build_insert_order-ordered_example =
    build_insert_order-ordered "order" links link_order main_is_second

build_insert_order_total_example :
    ((order : List String) × (build_insert_order "order" links ≡ ok order))
    ⊎ ((build_insert_order "order" links ≡ err cycle)
        ⊎ ((t : String) × (build_insert_order "order" links ≡ err (self_association t))))
build_insert_order_total_example = build_insert_order_total "order" links

abbrev place : String → ℕ
place t = if t =? "user" then 0 else if t =? "order" then 1 else 2

placed : All (λ a. place (from "order" a) < place a.target_table) links
unfolding source_of
placed = (omega arith, (omega arith, tt))

build_insert_order_complete_example :
    (order : List String) × (build_insert_order "order" links ≡ ok order)
build_insert_order_complete_example = build_insert_order_complete "order" links place placed
