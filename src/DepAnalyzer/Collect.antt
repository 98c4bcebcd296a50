-- ===== src/DepAnalyzer/Collect.antt =====
-- What `build_insert_order` reads off the associations: the tables and the edges.
use data_factory.Base.{
  ℕ, ◌+◌, ◌≤◌, ◌<◌, String, ◌≡◌, refl, ap, true, ◌⊎◌, inl, inr, Bool-cases, List, [], ◌∷◌, ◌++◌,
  if◌then◌else◌, ◌=?◌, =?_iff, =?_refl, string_eq, arith, All,
}
use data_factory.Base.Count.{
  count, contains, count-append, contains-append, not_contains-count, Distinct,
}
use data_factory.Base.Result.{ok, err}
use data_factory.DepAnalyzer.{Edge, Link, self_association, source_of, add_new, collect}
use data_factory.DepAnalyzer.Degrees.{Ends}
use data_factory.DepAnalyzer.Fuel.{links, HasEdge, Ranked}

abbrev pub Starts : List String → List Edge → Type 0
Starts ks = All (λ e. contains e.0 ks ≡ true)

contains-add_new :
    (m k : String) (ts : List String)
    → contains m (add_new ts k) ≡ (if contains m ts then true else k =? m)
unfolding add_new
contains-add_new m k ts = ground (arith, contains-append m ts (k ∷ []), =?_iff k m)

count-add_new : (m k : String) (ts : List String) → count m ts ≤ 1 → count m (add_new ts k) ≤ 1
unfolding add_new
count-add_new m k ts h =
    ground (arith, count-append m ts (k ∷ []), =?_iff k m, not_contains-count k ts)

abbrev Grows : List String → List String → Type 0
Grows ts us = (m : String) → contains m ts ≡ true → contains m us ≡ true

Grows-add_new : (ts : List String) (k : String) → Grows ts (add_new ts k)
Grows-add_new ts k m h = ground (arith, contains-add_new m k ts)

Ends-mono : (ts us : List String) (es : List Edge) → Grows ts us → Ends ts es → Ends us es
Ends-mono ts us [] g h = tt
Ends-mono ts us ((s, t) ∷ es) g (k, h) = (g t k, Ends-mono ts us es g h)

Starts-mono : (ts us : List String) (es : List Edge) → Grows ts us → Starts ts es → Starts us es
Starts-mono ts us [] g h = tt
Starts-mono ts us ((s, t) ∷ es) g (k, h) = (g s k, Starts-mono ts us es g h)

Ends-snoc :
    (ts : List String) (es : List Edge) (s t : String)
    → Ends ts es
    → contains t ts ≡ true
    → Ends ts (es ++ (s, t) ∷ [])
Ends-snoc ts [] s t h k = (k, tt)
Ends-snoc ts (e ∷ es) s t (j, h) k = (j, Ends-snoc ts es s t h k)

Starts-snoc :
    (ts : List String) (es : List Edge) (s t : String)
    → Starts ts es
    → contains s ts ≡ true
    → Starts ts (es ++ (s, t) ∷ [])
Starts-snoc ts [] s t h k = (k, tt)
Starts-snoc ts (e ∷ es) s t (j, h) k = (j, Starts-snoc ts es s t h k)

links-snoc :
    (s t r u : String) (es : List Edge)
    → links s t (es ++ (r, u) ∷ []) ≡ links s t es + links s t ((r, u) ∷ [])
links-snoc s t r u [] = omega arith
links-snoc s t r u ((x, y) ∷ es) = omega (arith, links-snoc s t r u es)

Ranked-snoc :
    (rank : String → ℕ) (es : List Edge) (r u : String)
    → Ranked rank es
    → rank r < rank u
    → Ranked rank (es ++ (r, u) ∷ [])
Ranked-snoc rank es r u h lt s t e =
    ground (arith, links-snoc s t r u es, h s t, =?_iff r s, =?_iff u t)

-- The ends of an association.
abbrev pub from : String → Link → String
from main a = source_of main a.source_table

-- The tables and edges that the associations `links_in` add to `ts` and `es`.
pub record Collected (main : String) (links_in : List Link) (ts us : List String)
    (es fs : List Edge) : Type 0 where
  pub grows : Grows ts us
  pub distinct : Distinct us
  pub ends : Ends us fs
  pub starts : Starts us fs
  pub kept : (s t : String) → links s t es ≤ links s t fs
  pub linked : All (λ a. HasEdge (from main a) a.target_table fs) links_in
  pub ranked :
      (rank : String → ℕ)
      → Ranked rank es
      → All (λ a. rank (from main a) < rank a.target_table) links_in
      → Ranked rank fs

-- Either the tables and edges are collected, or the first association of a table with itself is
-- reported.
pub collect_cases :
    (main : String) (links_in : List Link) (ts : List String) (es : List Edge)
    → Distinct ts
    → Ends ts es
    → Starts ts es
    → ((us : List String) × (fs : List Edge) × (collect main links_in ts es ≡ ok (us, fs))
        × Collected main links_in ts us es fs)
      ⊎ ((t : String) × (collect main links_in ts es ≡ err (self_association t))
          × ((rank : String → ℕ) → ¬ All (λ a. rank (from main a) < rank a.target_table) links_in))
unfolding collect
collect_cases main [] ts es d h k = inl (
  ts,
  es,
  refl,
  record {
    grows = λ m x. x;
    distinct = d;
    ends = h;
    starts = k;
    kept = λ s t. omega arith;
    linked = tt;
    ranked = λ rank r a. r;
  },
)
collect_cases main (a ∷ links_in) ts es d h k =
    let s = from main a in
    let t = a.target_table in
    let us = add_new (add_new ts s) t in
    let fs = es ++ (s, t) ∷ [] in
    let grows : Grows ts us = λ m x. Grows-add_new (add_new ts s) t m (Grows-add_new ts s m x) in
    let has_s : contains s us ≡ true =
      Grows-add_new (add_new ts s) t s (ground (arith, contains-add_new s s ts, =?_refl s)) in
    let has_t : contains t us ≡ true =
      ground (arith, contains-add_new t t (add_new ts s), =?_refl t) in
    let here : HasEdge s t fs = ground (arith, links-snoc s t s t es, =?_refl s, =?_refl t) in
    elim (Bool-cases (s =? t)) [
      | inl same ↦
          inr (s, rw same, λ rank r. absurd (omega (arith, ap rank ((=?_iff s t).0 same), r.0)))
      | inr differ ↦
          elim (collect_cases main links_in us fs
            (λ m. count-add_new m t (add_new ts s) (count-add_new m s ts (d m)))
            (Ends-snoc us es s t (Ends-mono ts us es grows h) has_t)
            (Starts-snoc us es s t (Starts-mono ts us es grows k) has_s)) [
              | inl (us', fs', e, c) ↦ inl (
                us',
                fs',
                rw differ e,
                record {
                  grows = λ m x. c.grows m (grows m x);
                  distinct = c.distinct;
                  ends = c.ends;
                  starts = c.starts;
                  kept = λ x y. omega (arith, c.kept x y, links-snoc x y s t es);
                  linked = (omega (arith, here, c.kept s t), c.linked);
                  ranked = λ rank r x. c.ranked rank (Ranked-snoc rank es s t r x.0) x.1;
                },
              )
              | inr (x, e, no_rank) ↦ inr (x, rw differ e, λ rank r. no_rank rank r.1)
            ]
    ]
