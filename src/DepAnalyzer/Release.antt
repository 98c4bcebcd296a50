-- ===== src/DepAnalyzer/Release.antt =====
-- What taking nodes off the queue does to the degrees and to the queue.
use data_factory.Base.{
  ℕ, suc, ◌+◌, ◌-◌, String, ◌≡◌, refl, sym, ◌∙◌, ap, fun_ext, true, inl, inr, Option-cases, some,
  List, [], ◌∷◌, ◌++◌, ◌==◌, if◌then◌else◌, ◌=?◌, =?_iff, =?_refl, string_eq, All, arith,
}
use data_factory.Base.Count.{count, contains, count-append}
use data_factory.Base.Dict.{get, put}
use data_factory.Base.Result.{ok, ◌>>=◌}
use data_factory.DepAnalyzer.{Edge, Degrees, Graph, successors, release, release_layer}
use data_factory.DepAnalyzer.Degrees.{into, targets, Tracks, put-Tracks}

abbrev pub Known : List String → List String → Type 0
Known ks = All (λ t. contains t ks ≡ true)

release-cons :
    (k : String) (ts : List String) (d : Degrees) (q : List String) {v : ℕ}
    → get k d ≡ some v
    → release (k ∷ ts) d q ≡ release ts (put k (v - 1) d) (if v == 1 then q ++ k ∷ [] else q)
unfolding release
release-cons k ts d q found = rw (found, release)

-- One decrement for each target: what is left is `r`, and a node joins the queue once, when its
-- degree comes to 0.
pub release-Tracks :
    (ks ts : List String) (r : String → ℕ) (d : Degrees) (q : List String)
    → Known ks ts
    → Tracks ks (λ n. count n ts + r n) d
    → (d' : Degrees) × (q' : List String) × (release ts d q ≡ ok (d', q'))
      × Tracks ks r d'
      × ((m : String)
          → count m q' ≡ count m q + (if count m ts == 0 then 0 else if r m == 0 then 1 else 0))
unfolding release
release-Tracks ks [] r d q h t = (
  d,
  q,
  refl,
  record { value = λ n. ground (arith, t.value n); once = t.once },
  λ m. ground arith,
)
release-Tracks ks (k ∷ ts) r d q (known, h) t =
    let left : String → ℕ = λ n. count n ts + r n in
    let v : ℕ = suc (left k) in
    let found : get k d ≡ some v = ground (arith, t.value k, =?_refl k) in
    let less : v - 1 ≡ left k = omega arith in
    let next : Tracks ks left (put k (v - 1) d) = rw less (
      put-Tracks ks (λ n. (if k =? n then 1 else 0) + count n ts + r n) left d k known
        (λ n. ground (arith, =?_iff k n)) t) in
    let (d', q', e, t', c) =
      release-Tracks ks ts r (put k (v - 1) d) (if v == 1 then q ++ k ∷ [] else q) h next in
    (
      d',
      q',
      release-cons k ts d q found ∙ e,
      t',
      λ m. ground (arith, c m, count-append m q (k ∷ []), =?_iff k m),
    )

-- The targets of a list of nodes, one after the other.
abbrev pub flat : Graph → List String → List String
flat g [] = []
flat g (n ∷ ns) = successors n g ++ flat g ns

release-append :
    (ts us : List String) (d : Degrees) (q : List String)
    → release (ts ++ us) d q ≡ (release ts d q >>= λ p. release us p.0 p.1)
unfolding release
release-append [] us d q = refl
release-append (t ∷ ts) us d q = elim (Option-cases (get t d)) [
  | inl e ↦ rw (e, release)
  | inr (v, e) ↦
      rw (e, release) (release-append ts us (put t (v - 1) d) (if v == 1 then q ++ t ∷ [] else q))
]

-- The two nested loops over a layer are one loop over all its targets.
pub release_layer-flat :
    (g : Graph) (ns : List String) (d : Degrees) (q : List String)
    → release_layer g ns d q ≡ release (flat g ns) d q
unfolding release_layer
release_layer-flat g [] d q = unfold release in refl
release_layer-flat g (n ∷ ns) d q =
    rw (release-append (successors n g) (flat g ns) d q)
      (ap (λ k. release (successors n g) d q >>= k) (fun_ext λ p. release_layer-flat g ns p.0 p.1))

pub into-add :
    (w v : String → ℕ) (n : String) (es : List Edge)
    → into (λ s. w s + v s) n es ≡ into w n es + into v n es
into-add w v n [] = omega arith
into-add w v n ((s, t) ∷ es) = ground (arith, into-add w v n es)

into-zero : (n : String) (es : List Edge) → into (λ _. 0) n es ≡ 0
into-zero n [] = refl
into-zero n ((s, t) ∷ es) = ground (arith, into-zero n es)

count-targets :
    (n s : String) (es : List Edge)
    → count n (targets s es) ≡ into (λ r. if s =? r then 1 else 0) n es
count-targets n s [] = refl
count-targets n s ((r, t) ∷ es) = ground (arith, count-targets n s es, =?_iff r s, =?_iff s r)

-- The targets of the nodes of `ns`, counted edge by edge.
pub count-flat :
    (g : Graph) (es : List Edge)
    → ((s : String) → successors s g ≡ targets s es)
    → (n : String) (ns : List String) → count n (flat g ns) ≡ into (λ s. count s ns) n es
count-flat g es h n [] = sym (into-zero n es)
count-flat g es h n (x ∷ ns) =
    let split = into-add (λ r. if x =? r then 1 else 0) (λ s. count s ns) n es in
    omega (
      arith,
      count-append n (successors x g) (flat g ns),
      ap (count n) (h x),
      count-targets n x es,
      count-flat g es h n ns,
      split,
    )
