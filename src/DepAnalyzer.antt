-- ===== src/DepAnalyzer.antt =====
-- backend/app/engine/dep_analyzer.py: the order in which the tables of a case are filled, and the
-- layers in which the nodes of a scene are run. Both are Kahn's algorithm over two dictionaries.
mod Samples
mod Degrees
mod Release
mod Progress
mod Fuel
mod Collect
pub mod Layers
pub mod InsertOrder
use data_factory.Base.{
  ℕ, zero, suc, ◌+◌, ◌-◌, String, Option, none, some, List, [], ◌∷◌, ◌++◌, ◌==◌, if◌then◌else◌,
  ◌=?◌, length, sum_by, true, false, string_eq,
}
use data_factory.Base.Count.{contains}
use data_factory.Base.Dict.{Dict, get, put}
use data_factory.Base.Result.{Result, ok, err, ◌>>=◌, ◌>>◌, raise_if}

-- An edge (source, target): the source comes first.
abbrev pub Edge : Type 0
Edge = String × String

-- An association of a case, as far as the order depends on it.
pub record Link : Type 0 where
  pub source_table : Option String
  pub target_table : String

-- The `ValueError`s of the module, a `KeyError` of a dictionary, and a loop cut off by its fuel.
pub data DepError : Type 0 where
  self_association : String → DepError
  cycle : DepError
  key_error : String → DepError
  out_of_fuel : DepError

abbrev pub Degrees : Type 0
Degrees = Dict String ℕ

abbrev pub Graph : Type 0
Graph = Dict String (List String)

-- `graph[s]` of a `defaultdict(list)`.
unfoldable pub successors : String → Graph → List String
successors s g = elim (get s g) [ none ↦ [] | some l ↦ l ]

-- `graph[s].append(t)`
unfoldable pub add_successor : String → String → Graph → Graph
add_successor s t g = put s (successors s g ++ t ∷ []) g

-- `in_degree[t] += 1`
unfoldable pub increment : String → Degrees → Result DepError Degrees
increment t d = elim (get t d) [ none ↦ err (key_error t) | some v ↦ ok (put t (v + 1) d) ]

-- The loop over the edges that fills both dictionaries.
unfoldable pub load : List Edge → Graph → Degrees → Result DepError (Graph × Degrees)
load [] g d = ok (g, d)
load ((s, t) ∷ es) g d = do d' ← increment t d; load es (add_successor s t g) d'

-- `{name: 0 for name in names}`
unfoldable pub zeros : List String → Degrees → Degrees
zeros [] d = d
zeros (k ∷ ks) d = zeros ks (put k 0 d)

-- `[name for name, degree in in_degree.items() if degree == 0]`
unfoldable pub roots : Degrees → List String
roots [] = []
roots ((k, v) ∷ d) = let rest = roots d in if v == 0 then k ∷ rest else rest

-- `for t in targets: in_degree[t] -= 1; if in_degree[t] == 0: queue.append(t)`. The new degree is
-- 0 exactly if the old one is 1.
unfoldable pub release :
    List String → Degrees → List String → Result DepError (Degrees × List String)
release [] d q = ok (d, q)
release (t ∷ ts) d q = elim (get t d) [
  | none ↦ err (key_error t)
  | some v ↦ release ts (put t (v - 1) d) (if v == 1 then q ++ t ∷ [] else q)
]

unfoldable pub release_layer :
    Graph → List String → Degrees → List String → Result DepError (Degrees × List String)
release_layer g [] d q = ok (d, q)
release_layer g (n ∷ ns) d q = do
  next ← release (successors n g) d q
  release_layer g ns next.0 next.1

-- The `while queue` loop of `build_layers`.
unfoldable pub layer_loop :
    ℕ → Graph → Degrees → List String → List (List String) → Result DepError (List (List String))
layer_loop zero g d q layers = err out_of_fuel
layer_loop (suc fuel) g d [] layers = ok layers
layer_loop (suc fuel) g d (n ∷ ns) layers = do
  next ← release_layer g (n ∷ ns) d []
  layer_loop fuel g next.0 next.1 (layers ++ (n ∷ ns) ∷ [])

unfoldable pub check_layers : ℕ → List (List String) → Result DepError (List (List String))
check_layers size layers = do
  raise_if (if sum_by length layers == size then false else true) cycle
  ok layers

-- The node list is given by its `node_id`s.
unfoldable pub build_layers : List String → List Edge → Result DepError (List (List String))
unfolding check_layers
build_layers nodes edges = do
  loaded ← load edges [] (zeros nodes [])
  layers ← layer_loop (suc (length nodes)) loaded.0 loaded.1 (roots loaded.1) []
  check_layers (length nodes) layers

-- `assoc.get("source_table") or main_table`
unfoldable pub source_of : String → Option String → String
source_of main none = main
source_of main (some s) = if s =? "" then main else s

-- `if table not in tables: tables.append(table)`
pub add_new : List String → String → List String
add_new tables table = if contains table tables then tables else tables ++ table ∷ []

pub collect :
    String → List Link → List String → List Edge → Result DepError (List String × List Edge)
collect main [] tables edges = ok (tables, edges)
collect main (a ∷ rest) tables edges = do
  let s = source_of main a.source_table
  let t = a.target_table
  raise_if (s =? t) (self_association s)
  collect main rest (add_new (add_new tables s) t) (edges ++ (s, t) ∷ [])

-- The `while queue` loop of `build_insert_order`.
pub order_loop : ℕ → Graph → Degrees → List String → List String → Result DepError (List String)
order_loop zero g d q order = err out_of_fuel
order_loop (suc fuel) g d [] order = ok order
order_loop (suc fuel) g d (n ∷ rest) order = do
  next ← release (successors n g) d rest
  order_loop fuel g next.0 next.1 (order ++ n ∷ [])

pub check_order : ℕ → List String → Result DepError (List String)
check_order size order = do raise_if (if length order == size then false else true) cycle; ok order

-- Sorting the roots by their place in `tables` changes nothing: a dictionary keeps that order.
pub build_insert_order : String → List Link → Result DepError (List String)
unfolding check_order
build_insert_order main associations = do
  collected ← collect main associations (main ∷ []) []
  loaded ← load collected.1 [] (zeros collected.0 [])
  order ← order_loop (suc (length collected.0)) loaded.0 loaded.1 (roots loaded.1) []
  check_order (length collected.0) order
