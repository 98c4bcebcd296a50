-- ===== src/DepAnalyzer/Fuel.antt =====
-- The start of both functions, and why neither loop runs out of fuel.
use data_factory.Base.{
  ℕ, zero, suc, ◌+◌, ◌≤◌, ◌<◌, String, ◌≡◌, ◌∙◌, true, false, ◌⊎◌, inl, inr, Bool-cases, none, some,
  List, [], ◌∷◌, ◌==◌, if◌then◌else◌, ◌=?◌, =?_iff, =?_refl, string_eq, arith,
}
use data_factory.Base.Count.{count, contains, contains-In}
use data_factory.Base.Dict.{get, put}
use data_factory.Base.Result.{ok, err}
use data_factory.DepAnalyzer.{
  Edge, Degrees, Graph, key_error, successors, add_successor, increment, load, zeros, roots,
}
use data_factory.DepAnalyzer.Degrees.{
  targets, Tracks, Ends, zeros-Tracks, load-Tracks, load-cons, count-roots, bumped,
  increment-Tracks,
}
use data_factory.DepAnalyzer.Progress.{left, Holds}

-- How many edges (s, t) there are.
abbrev pub links : String → String → List Edge → ℕ
links s t [] = 0
links s t ((r, u) ∷ es) = (if r =? s then (if u =? t then 1 else 0) else 0) + links s t es

abbrev pub HasEdge : String → String → List Edge → Type 0
HasEdge s t es = 0 < links s t es

-- `rank` grows along every edge: the graph has no cycle.
abbrev pub Ranked : (String → ℕ) → List Edge → Type 0
Ranked rank es = (s t : String) → HasEdge s t es → rank s < rank t

pub left-pos :
    (done : List String) (s t : String) (es : List Edge)
    → HasEdge s t es
    → count s done ≡ 0
    → 0 < left done t es
left-pos done s t [] h u = h
left-pos done s t ((r, k) ∷ es) h u = ground (arith, left-pos done s t es, =?_iff r s, =?_iff k t)

-- Something that is left has a source that is not done.
pub left-witness :
    (done : List String) (t : String) (es : List Edge)
    → 0 < left done t es
    → (s : String) × HasEdge s t es × (count s done ≡ 0)
left-witness done t [] h = elim h [ ]
left-witness done t ((r, k) ∷ es) h = elim (Bool-cases (k =? t)) [
  | inl same ↦ elim (Bool-cases (count r done == 0)) [
    | inl now ↦ (r, ground (arith, =?_refl r), ground arith)
    | inr old ↦ let (s, e, u) = left-witness done t es (ground arith) in (s, ground arith, u)
  ]
  | inr other ↦ let (s, e, u) = left-witness done t es (ground arith) in (s, ground arith, u)
]

pub start-Holds :
    (ks : List String) (es : List Edge)
    → Ends ks es
    → (g : Graph) × (d : Degrees) × (load es [] (zeros ks []) ≡ ok (g, d))
      × ((s : String) → successors s g ≡ targets s es)
      × Holds ks es d [] (roots d)
start-Holds ks es h =
    let (g, d, e, t, s) = load-Tracks ks es (λ _. 0) [] (zeros ks []) h (zeros-Tracks ks) in
    (
      g,
      d,
      e,
      λ r. unfold successors get in s r,
      record {
        tracks = record { value = λ n. ground (arith, t.value n); once = t.once };
        queued = λ m. ground (arith, t.value m, t.once m, count-roots m d);
      },
    )

-- An edge to an unknown node raises a `KeyError` in the loop over the edges.
pub load_cases :
    (ks : List String) (es : List Edge) (f : String → ℕ) (g : Graph) (d : Degrees)
    → Tracks ks f d
    → Ends ks es ⊎ ((t : String) × (load es g d ≡ err (key_error t)) × (contains t ks ≡ false))
unfolding load increment
load_cases ks [] f g d t = inl tt
load_cases ks ((r, k) ∷ es) f g d t = elim (Bool-cases (contains k ks)) [
  | inr no_key ↦
      let missing : get k d ≡ none = ground (arith, t.value k) in
      inr (k, rw (missing, load, increment), no_key)
  | inl known ↦
      let found : get k d ≡ some (f k) = ground (arith, t.value k) in
      elim (load_cases ks es (bumped k f) (add_successor r k g) (put k (f k + 1) d)
        (increment-Tracks ks f d k known t)) [
          | inl ends ↦ inl (known, ends)
          | inr (x, e, u) ↦ inr (x, load-cons r k es g d found ∙ e, u)
        ]
]

-- What is done and queued fits into the nodes.
pub Holds-fits :
    {ks : List String} {es : List Edge} {d : Degrees} {done queue : List String}
    → Holds ks es d done queue
    → (m : String) → count m done + count m queue ≤ count m ks
Holds-fits {ks} {done = done} h m = ground (arith, h.queued m, contains-In m ks)

-- With an empty queue an acyclic graph is done.
pub all_done :
    (ks : List String) (es : List Edge) (d : Degrees) (done : List String) (rank : String → ℕ)
    → ((s t : String) → HasEdge s t es → contains s ks ≡ true)
    → Ranked rank es
    → Holds ks es d done []
    → (bound : ℕ) (m : String) → rank m < bound
    → contains m ks ≡ true
    → count m done ≡ 1
all_done ks es d done rank known ranked h zero m lt k = elim lt [ ]
all_done ks es d done rank known ranked h (suc bound) m lt k =
    elim (Bool-cases (left done m es == 0)) [
      | inl now ↦ ground (arith, h.queued m)
      | inr more ↦
          let (s, e, u) = left-witness done m es (ground arith) in
          absurd (
            omega (
              arith,
              all_done ks es d done rank known ranked h bound s (omega (arith, ranked s m e))
                  (known s m e),
            ))
    ]
