-- ===== src/DepAnalyzer/Degrees.antt =====
-- The dictionary of in-degrees, read as a function of the node.
use data_factory.Base.{
  ℕ, ◌+◌, ◌≤◌, String, ◌≡◌, refl, sym, ◌∙◌, true, none, some, List, [], ◌∷◌, ◌++◌, ◌==◌,
  if◌then◌else◌, ◌=?◌, =?_iff, =?_refl, string_eq, All, arith, append_assoc, append-nil,
}
use data_factory.Base.Count.{count, contains}
use data_factory.Base.Dict.{get, put, keys, get-put}
use data_factory.Base.Result.{ok}
use data_factory.DepAnalyzer.{
  Edge, Degrees, Graph, successors, add_successor, increment, load, zeros, roots,
}

-- The sum of `w s` over the edges (s, n).
abbrev pub into : (String → ℕ) → String → List Edge → ℕ
into w n [] = 0
into w n ((s, t) ∷ es) = (if t =? n then w s else 0) + into w n es

-- The targets of the edges out of `s`, in order.
abbrev pub targets : String → List Edge → List String
targets s [] = []
targets s ((r, t) ∷ es) = let rest = targets s es in if r =? s then t ∷ rest else rest

-- The keys of `d` are `ks`, each once, and the value at `n` is `f n`.
pub record Tracks (ks : List String) (f : String → ℕ) (d : Degrees) : Type 0 where
  pub value : (n : String) → get n d ≡ (if contains n ks then some (f n) else none)
  pub once : (n : String) → count n (keys d) ≡ (if contains n ks then 1 else 0)

count-keys-put :
    (n k : String) (v : ℕ) (d : Degrees)
    → count n (keys (put k v d))
      ≡ (elim (get k d) [ none ↦ (if k =? n then 1 else 0) | some _ ↦ 0 ]) + count n (keys d)
unfolding get put
count-keys-put n k v [] = refl
count-keys-put n k v ((j, w) ∷ d) =
    ground (arith, =?_iff j k, =?_iff k n, =?_iff j n, count-keys-put n k v d)

get-zeros :
    (n : String) (ks : List String) (d : Degrees)
    → get n (zeros ks d) ≡ (if contains n ks then some 0 else get n d)
unfolding zeros
get-zeros n [] d = refl
get-zeros n (k ∷ ks) d = ground (arith, get-zeros n ks (put k 0 d), get-put k n 0 d)

count-keys-zeros :
    (n : String) (ks : List String) (d : Degrees)
    → count n (keys (zeros ks d))
      ≡ (elim (get n d) [ none ↦ (if contains n ks then 1 else 0) | some _ ↦ 0 ]) + count n (keys d)
unfolding zeros
count-keys-zeros n [] d = ground arith
count-keys-zeros n (k ∷ ks) d =
    ground (
      arith,
      count-keys-zeros n ks (put k 0 d),
      get-put k n 0 d,
      count-keys-put n k 0 d,
      =?_iff k n,
    )

pub zeros-Tracks : (ks : List String) → Tracks ks (λ _. 0) (zeros ks [])
unfolding get
zeros-Tracks ks = record {
  value = λ n. get-zeros n ks [];
  once = λ n. ground (arith, count-keys-zeros n ks []);
}

pub put-Tracks :
    (ks : List String) (f g : String → ℕ) (d : Degrees) (k : String)
    → contains k ks ≡ true
    → ((n : String) → g n ≡ (if k =? n then g k else f n))
    → Tracks ks f d
    → Tracks ks g (put k (g k) d)
put-Tracks ks f g d k known same t = record {
  value = λ n. ground (arith, get-put k n (g k) d, t.value n, same n, =?_iff k n);
  once = λ n. ground (arith, count-keys-put n k (g k) d, t.value k, t.once n);
}

pub count-roots :
    (m : String) (d : Degrees)
    → count m (keys d) ≤ 1
    → count m (roots d) ≡ (elim (get m d) [ none ↦ 0 | some v ↦ (if v == 0 then 1 else 0) ])
unfolding roots get
count-roots m [] h = refl
count-roots m ((k, v) ∷ d) h = ground (arith, count-roots m d (ground arith), absent-get m d)
  where
    absent-get : (m : String) (d : Degrees) → count m (keys d) ≡ 0 → get m d ≡ none
    absent-get m [] h = refl
    absent-get m ((k, v) ∷ d) h = ground (arith, absent-get m d)

-- Every edge ends in a known node.
abbrev pub Ends : List String → List Edge → Type 0
Ends ks = All (λ e. contains e.1 ks ≡ true)

successors-add :
    (s r t : String) (g : Graph)
    → successors s (add_successor r t g)
      ≡ (if r =? s then successors s g ++ t ∷ [] else successors s g)
unfolding successors add_successor
successors-add s r t g = ground (arith, get-put r s (successors r g ++ t ∷ []) g, =?_iff r s)

pub load-cons :
    (r k : String) (es : List Edge) (g : Graph) (d : Degrees) {v : ℕ}
    → get k d ≡ some v
    → load ((r, k) ∷ es) g d ≡ load es (add_successor r k g) (put k (v + 1) d)
unfolding load increment
load-cons r k es g d found = rw (found, load, increment)

abbrev pub bumped : String → (String → ℕ) → String → ℕ
bumped k f n = if k =? n then f k + 1 else f n

pub increment-Tracks :
    (ks : List String) (f : String → ℕ) (d : Degrees) (k : String)
    → contains k ks ≡ true
    → Tracks ks f d
    → Tracks ks (bumped k f) (put k (f k + 1) d)
increment-Tracks ks f d k known t =
    let here : bumped k f k ≡ f k + 1 = ground (arith, =?_refl k) in
    rw here at (put-Tracks ks f (bumped k f) d k known (λ n. ground (arith, =?_refl k)) t)

-- After the loop over the edges a degree counts the edges that end there.
pub load-Tracks :
    (ks : List String) (es : List Edge) (f : String → ℕ) (g : Graph) (d : Degrees)
    → Ends ks es
    → Tracks ks f d
    → (g' : Graph) × (d' : Degrees) × (load es g d ≡ ok (g', d'))
      × Tracks ks (λ n. f n + into (λ _. 1) n es) d'
      × ((s : String) → successors s g' ≡ successors s g ++ targets s es)
unfolding load
load-Tracks ks [] f g d h t = (
  g,
  d,
  refl,
  record { value = λ n. ground (arith, t.value n); once = t.once },
  λ s. sym (append-nil _),
)
load-Tracks ks ((r, k) ∷ es) f g d (known, h) t =
    let found : get k d ≡ some (f k) = ground (arith, t.value k) in
    let next = increment-Tracks ks f d k known t in
    let (g', d', e, t', s') = load-Tracks ks es (bumped k f) (add_successor r k g) _ h next in
    (
      g',
      d',
      load-cons r k es g d found ∙ e,
      record { value = λ n. ground (arith, t'.value n, =?_iff k n); once = t'.once },
      λ s.
          s' s
          ∙ ground (
            arith,
            successors-add s r k g,
            append_assoc (successors s g) (k ∷ []) (targets s es),
          ),
    )
