-- ===== src/DepAnalyzer/InsertOrder.antt =====
-- `build_insert_order`: what a result says, when there is one, and that the loop ends.
use data_factory.Base.{
  ℕ, zero, suc, ◌+◌, ◌≤◌, ◌<◌, String, ◌≡◌, refl, sym, ◌∙◌, ap, true, ◌⊎◌, inl, inr, Bool-cases,
  List, [], ◌∷◌, ◌++◌, append_assoc, append-nil, if◌then◌else◌, ◌=?◌, =?_iff, =?_refl, string_eq,
  arith, length, length-append, All,
}
use data_factory.Base.Count.{
  count, contains, contains-In, In, count-append, length-le_of_count, SameItems, length-SameItems,
  Distinct, Distinct-count,
}
use data_factory.Base.Result.{ok, err}
use data_factory.DepAnalyzer.{
  Edge, Link, Degrees, Graph, DepError, cycle, self_association, successors, roots, release,
  order_loop, collect, check_order, build_insert_order,
}
use data_factory.DepAnalyzer.Degrees.{targets, Ends}
use data_factory.DepAnalyzer.Progress.{left, Holds, step-Holds}
use data_factory.DepAnalyzer.Fuel.{HasEdge, left-pos, start-Holds, Holds-fits, all_done}
use data_factory.DepAnalyzer.Collect.{Collected, collect_cases, from, Starts}

-- `order.index(t)`
abbrev pub position : String → List String → ℕ
position t [] = 0
position t (x ∷ xs) = if x =? t then 0 else suc (position t xs)

-- All the sources of each item stand in `done` or before it.
abbrev Sorted : List Edge → List String → List String → Type 0
Sorted es done [] = Unit
Sorted es done (n ∷ ns) = (left done n es ≡ 0) × Sorted es (done ++ n ∷ []) ns

Sorted-position :
    (es : List Edge) (done order : List String) (s t : String)
    → Sorted es done order
    → HasEdge s t es
    → count s done ≡ 0
    → In t order
    → position s order < position t order
Sorted-position es done [] s t h e u i = elim i [ ]
Sorted-position es done (n ∷ ns) s t (now, h) e u i = elim (Bool-cases (n =? t)) [
  | inl here ↦
      absurd
        (omega (arith, left-pos done s t es e u, ap (λ k. left done k es) ((=?_iff n t).0 here)))
  | inr later ↦ elim (Bool-cases (n =? s)) [
    | inl first ↦ rw (first, later) (omega arith)
    | inr not_yet ↦
        let u' : count s (done ++ n ∷ []) ≡ 0 = ground (arith, count-append s done (n ∷ [])) in
        let i' : In t ns = ground arith in
        rw (not_yet, later) (omega (arith, Sorted-position es (done ++ n ∷ []) ns s t h e u' i'))
  ]
]

module _ (ks : List String) (es : List Edge) (g : Graph) (ends : Ends ks es)
    (graph : (s : String) → successors s g ≡ targets s es) where
  order_loop-Sorted :
      (fuel : ℕ) (d : Degrees) (done queue order : List String)
      → length ks < length done + fuel
      → Holds ks es d done queue
      → (ls : List String) × (d' : Degrees) × (order_loop fuel g d queue order ≡ ok (order ++ ls))
        × Sorted es done ls
        × Holds ks es d' (done ++ ls) []
  unfolding order_loop
  order_loop-Sorted zero d done queue order f h =
      absurd (omega (arith, length-le_of_count done ks (λ m. omega (arith, Holds-fits h m))))
  order_loop-Sorted (suc fuel) d done [] order f h =
      ([], d, ap ok (sym (append-nil order)), tt, rw (append-nil done) h)
  order_loop-Sorted (suc fuel) d done (n ∷ rest) order f h =
      let (d', q', e, h') = step-Holds ks es g ends graph d done (n ∷ []) rest h in
      let e : release (successors n g) d rest ≡ ok (d', q') = rw append-nil at e in
      let (ls, d'', e', sorted, final) =
        order_loop-Sorted fuel d' (done ++ n ∷ []) q' (order ++ n ∷ [])
          (omega (arith, length-append done (n ∷ []))) h' in
      (
        n ∷ ls,
        d'',
        rw e (e' ∙ ap ok (append_assoc order (n ∷ []) ls)),
        (ground (arith, h.queued n, =?_refl n), sorted),
        rw append_assoc at final,
      )

-- What the loops find for tables and edges that were collected.
abbrev OrderRun : (tables : List String) (edges : List Edge) → String → List Link → Type 0
OrderRun tables edges main links_in =
    (order : List String) × (d : Degrees) × (build_insert_order main links_in
      ≡ check_order (length tables) order)
    × Sorted edges [] order
    × Holds tables edges d order []

build_insert_order_lem :
    (main : String) (links_in : List Link) (tables : List String) (edges : List Edge)
    → collect main links_in (main ∷ []) [] ≡ ok (tables, edges)
    → Ends tables edges
    → OrderRun tables edges main links_in
unfolding build_insert_order
build_insert_order_lem main links_in tables edges c ends =
    let (g, d, e, graph, h) = start-Holds tables edges ends in
    let (ls, d', e', sorted, final) =
      order_loop-Sorted tables edges g ends graph (suc (length tables)) d [] (roots d) []
        (omega arith) h in
    (ls, d', rw (c, e, e'), sorted, final)

check_order-ok :
    (size : ℕ) (ls order : List String)
    → check_order size ls ≡ ok order
    → (ls ≡ order) × (length ls ≡ size)
unfolding check_order
check_order-ok size ls order h = ground arith

check_order_full : (size : ℕ) (ls : List String) → length ls ≡ size → check_order size ls ≡ ok ls
unfolding check_order
check_order_full size ls h = ground arith

check_order_cases :
    (size : ℕ) (ls : List String)
    → (check_order size ls ≡ ok ls) ⊎ (check_order size ls ≡ err cycle)
unfolding check_order
check_order_cases size ls = ground arith

build_insert_order_refused :
    (main : String) (links_in : List Link) (e : DepError)
    → collect main links_in (main ∷ []) [] ≡ err e
    → build_insert_order main links_in ≡ err e
unfolding build_insert_order
build_insert_order_refused main links_in e c = rw c

-- The associations of a run that returns were collected.
collected :
    (main : String) (links_in : List Link) (order : List String)
    → build_insert_order main links_in ≡ ok order
    → (tables : List String) × (edges : List Edge) × (collect main links_in (main ∷ []) []
        ≡ ok (tables, edges))
      × Collected main links_in (main ∷ []) tables [] edges
collected main links_in order h =
    elim (collect_cases main links_in (main ∷ []) [] (λ m. ground arith) tt tt) [
      | inl found ↦ found
      | inr (t, e, no_rank) ↦
          absurd (cc (build_insert_order_refused main links_in (self_association t) e, h))
    ]

-- A table's place among the tables of the order, for one association.
abbrev pub InOrder : String → List String → Link → Type 0
InOrder main order a =
    In (from main a) order
    × In a.target_table order
    × (position (from main a) order < position a.target_table order)

Ends-known :
    (ks : List String) (es : List Edge) (s t : String)
    → Ends ks es
    → Starts ks es
    → HasEdge s t es
    → (contains s ks ≡ true) × (contains t ks ≡ true)
Ends-known ks [] s t ends starts h = elim h [ ]
Ends-known ks ((r, k) ∷ es) s t (known, ends) (first, starts) h =
    ground (arith, Ends-known ks es s t ends starts, =?_iff k t, =?_iff r s)

-- If there is an order, it holds the main table and both tables of each association, no table twice, and each
-- association's source stands before its target.
pub build_insert_order-ordered :
    (main : String) (associations : List Link) (order : List String)
    → build_insert_order main associations ≡ ok order
    → Distinct order × In main order × All (InOrder main order) associations
build_insert_order-ordered main associations order h =
    let (tables, edges, c, found) = collected main associations order h in
    let (ls, d, e, sorted, final) =
      build_insert_order_lem main associations tables edges c found.ends in
    let (same, size) = check_order-ok (length tables) ls order (sym e ∙ h) in
    let items : SameItems ls tables =
      length-SameItems ls tables (λ m. omega (arith, Holds-fits final m)) size in
    let has_main = found.grows main (ground (arith, =?_refl main)) in
    rw (← same) (
      λ m. omega (arith, items m, found.distinct m),
      omega (arith, items main, contains-In main tables has_main),
      places tables edges ls found.ends found.starts sorted items associations found.linked,
    )
  where
    places :
        (tables : List String) (edges : List Edge) (ls : List String)
        → Ends tables edges
        → Starts tables edges
        → Sorted edges [] ls
        → SameItems ls tables
        → (links_in : List Link) → All (λ a. HasEdge (from main a) a.target_table edges) links_in
        → All (InOrder main ls) links_in
    places tables edges ls ends starts sorted items [] h = tt
    places tables edges ls ends starts sorted items (a ∷ rest) (x, h) =
        let s = from main a in
        let t = a.target_table in
        let (ks, kt) = Ends-known tables edges s t ends starts x in
        let is : In s ls = omega (arith, items s, contains-In s tables ks) in
        let it : In t ls = omega (arith, items t, contains-In t tables kt) in
        (
          (is, it, Sorted-position edges [] ls s t sorted x refl it),
          places tables edges ls ends starts sorted items rest h,
        )

-- Associations that follow a rank of the tables always have an order.
pub build_insert_order_complete :
    (main : String) (associations : List Link) (rank : String → ℕ)
    → All (λ a. rank (from main a) < rank a.target_table) associations
    → (order : List String) × (build_insert_order main associations ≡ ok order)
build_insert_order_complete main associations rank ranked =
    elim (collect_cases main associations (main ∷ []) [] (λ m. ground arith) tt tt) [
      | inr (t, e, no_rank) ↦ absurd (no_rank rank ranked)
      | inl (tables, edges, c, found) ↦
          let (ls, d, e, sorted, final) =
            build_insert_order_lem main associations tables edges c found.ends in
          let known : (s t : String) → HasEdge s t edges → contains s tables ≡ true =
            λ s t x. (Ends-known tables edges s t found.ends found.starts x).0 in
          let done : (m : String) → contains m tables ≡ true → count m ls ≡ 1 = λ m k.
            all_done tables edges d ls rank known (found.ranked rank (λ s t x. elim x [ ]) ranked)
              final (suc (rank m)) m (omega arith) k in
          let enough : length tables ≤ length ls =
            length-le_of_count tables ls
              (λ m. ground (arith, done m, Distinct-count m tables found.distinct)) in
          let fits : length ls ≤ length tables =
            length-le_of_count ls tables (λ m. omega (arith, Holds-fits final m)) in
          (ls, e ∙ check_order_full (length tables) ls (omega arith))
    ]

-- Every run ends: with an order, with the error of a cycle, or with the error of a table that is
-- associated with itself. No `KeyError` is raised and the loop's fuel is never used up.
pub build_insert_order_total :
    (main : String) (associations : List Link)
    → ((order : List String) × (build_insert_order main associations ≡ ok order))
      ⊎ ((build_insert_order main associations ≡ err cycle)
          ⊎ ((t : String) × (build_insert_order main associations ≡ err (self_association t))))
build_insert_order_total main associations =
    elim (collect_cases main associations (main ∷ []) [] (λ m. ground arith) tt tt) [
      | inr (t, e, no_rank) ↦ inr (inr (t, build_insert_order_refused main associations _ e))
      | inl (tables, edges, c, found) ↦
          let (ls, d, e, sorted, final) =
            build_insert_order_lem main associations tables edges c found.ends in
          elim (check_order_cases (length tables) ls) [
            | inl done ↦ inl (ls, e ∙ done)
            | inr fails ↦ inr (inl (e ∙ fails))
          ]
    ]
