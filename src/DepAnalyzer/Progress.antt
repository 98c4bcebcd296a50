-- ===== src/DepAnalyzer/Progress.antt =====
-- The invariant that the loops of both functions keep, and one step of them.
use data_factory.Base.{
  ℕ, ◌+◌, ◌-◌, ◌≤◌, String, ◌≡◌, refl, ◌∙◌, ap, fun_ext, false, List, [], ◌∷◌, ◌++◌, ◌==◌,
  if◌then◌else◌, =?_iff, string_eq, arith,
}
use data_factory.Base.Count.{count, contains, count-append}
use data_factory.Base.Result.{ok}
use data_factory.DepAnalyzer.{Edge, Degrees, Graph, successors, release}
use data_factory.DepAnalyzer.Degrees.{into, targets, Tracks, Ends}
use data_factory.DepAnalyzer.Release.{Known, release-Tracks, flat, into-add, count-flat}

-- The edges (s, n) whose source is not among the nodes that are done.
abbrev pub left : List String → String → List Edge → ℕ
left done n es = into (λ s. 1 - count s done) n es

-- 1 for a node whose sources are all done.
abbrev pub free : List String → List Edge → List String → String → ℕ
free ks es done m = if contains m ks then (if left done m es == 0 then 1 else 0) else 0

-- The degrees count what is left, and the nodes that are done or queued are the free ones.
pub record Holds (ks : List String) (es : List Edge) (d : Degrees) (done queue : List String)
    : Type 0 where
  pub tracks : Tracks ks (λ n. left done n es) d
  pub queued : (m : String) → count m done + count m queue ≡ free ks es done m

into-mono_eq :
    (w v : String → ℕ) (n : String) (es : List Edge)
    → ((s : String) → w s ≡ v s)
    → into w n es ≡ into v n es
into-mono_eq w v n es h = ap (λ (f : String → ℕ). into f n es) (fun_ext h)

left-split :
    (done chunk : List String) (n : String) (es : List Edge)
    → ((s : String) → count s done + count s chunk ≤ 1)
    → left done n es ≡ left (done ++ chunk) n es + into (λ s. count s chunk) n es
left-split done chunk n es h =
    into-mono_eq _ (λ s. (1 - count s (done ++ chunk)) + count s chunk) n es
      (λ s. omega (arith, count-append s done chunk, h s))
    ∙ into-add (λ s. 1 - count s (done ++ chunk)) (λ s. count s chunk) n es

-- The targets of known edges are known.
targets-Known :
    (ks : List String) (es : List Edge) (s : String) → Ends ks es → Known ks (targets s es)
targets-Known ks [] s h = tt
targets-Known ks ((r, t) ∷ es) s (k, h) = ground (arith, targets-Known ks es s h)

Known-append : (ks xs ys : List String) → Known ks xs → Known ks ys → Known ks (xs ++ ys)
Known-append ks [] ys h k = k
Known-append ks (x ∷ xs) ys (a, h) k = (a, Known-append ks xs ys h k)

unknown-count :
    (ks ts : List String) (m : String) → Known ks ts → contains m ks ≡ false → count m ts ≡ 0
unknown-count ks [] m h u = refl
unknown-count ks (t ∷ ts) m (k, h) u = ground (arith, unknown-count ks ts m h u, =?_iff t m)

module _ (ks : List String) (es : List Edge) (g : Graph) (ends : Ends ks es)
    (graph : (s : String) → successors s g ≡ targets s es) where
  flat-Known : (ns : List String) → Known ks (flat g ns)
  flat-Known [] = tt
  flat-Known (n ∷ ns) =
      Known-append ks (successors n g) (flat g ns) (rw graph (targets-Known ks es n ends))
        (flat-Known ns)

  -- Taking `chunk` off the front of the queue and releasing its targets keeps the invariant.
  pub step-Holds :
      (d : Degrees) (done chunk rest : List String)
      → Holds ks es d done (chunk ++ rest)
      → (d' : Degrees) × (q' : List String) × (release (flat g chunk) d rest ≡ ok (d', q'))
        × Holds ks es d' (done ++ chunk) q'
  step-Holds d done chunk rest h =
      let fits : (s : String) → count s done + count s chunk ≤ 1 =
        λ s. ground (arith, h.queued s, count-append s chunk rest) in
      let delta : (n : String)
          → left done n es ≡ count n (flat g chunk) + left (done ++ chunk) n es =
        λ n. omega (arith, left-split done chunk n es fits, count-flat g es graph n chunk) in
      let known = flat-Known chunk in
      let (d', q', e, t, c) =
        release-Tracks ks (flat g chunk) (λ n. left (done ++ chunk) n es) d rest known
          (record {
            value = λ n. ground (arith, h.tracks.value n, delta n);
            once = h.tracks.once;
          }) in
      (
        d',
        q',
        e,
        record {
          tracks = t;
          queued = λ m. ground (
            arith,
            h.queued m,
            delta m,
            c m,
            count-append m done chunk,
            count-append m chunk rest,
            unknown-count ks (flat g chunk) m known,
          );
        },
      )
