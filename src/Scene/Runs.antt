-- ===== src/Scene/Runs.antt =====
-- The rows that the layers of a scene add, one for each node.
use data_factory.Base.{
  ℕ, ◌+◌, ◌≡◌, refl, ap, sym, ◌∙◌, String, Bool, true, false, not, none, some, List, [], ◌∷◌, ◌++◌,
  map, append_assoc, append-nil, if◌then◌else◌, ◌=?◌, =?_iff, string_eq, keep, any, is_empty, All,
  Bool-cases, Option-cases, ◌⊎◌, inl, inr, arith,
}
use data_factory.Base.Count.{count, count-append, Distinct}
use data_factory.Base.Dict.{Dict, get, put, get-put}
use data_factory.Base.Result.{Result, ok, err}
use data_factory.DepAnalyzer.Layers.{concat, layer_index}
use data_factory.Scene.{
  Node, NodeExec, Workers, SceneError, node_map, submit_node, end_node, run_node, run_layer, aborts,
  abort_nodes, find_exec, cancelled_exec, cancel_remaining, run_layers, is_ended_well, is_lost,
}

abbrev pub names : List NodeExec → List String
names xs = map (λ x. x.node_id) xs

-- A row that will not change any more.
abbrev pub Ended : NodeExec → Type 0
Ended x = (if is_ended_well x then true else is_lost x) ≡ true

-- `zs` adds ended rows for `ks` to `xs`; one of them aborts if `flag` is set, and only then.
pub record Adds (xs : List NodeExec) (ks : List String) (flag : Bool) (zs : List NodeExec)
    : Type 0 where
  pub added : List NodeExec
  pub all : zs ≡ xs ++ added
  pub named : names added ≡ ks
  pub ended : All Ended added
  pub flagged : any aborts added ≡ flag

-- A node stands under its own name.
abbrev pub Named : Dict String Node → Type 0
Named d = (k : String) (n : Node) → get k d ≡ some n → n.node_id ≡ k

put-Named : (m : Node) (d : Dict String Node) → Named d → Named (put m.node_id m d)
put-Named m d named k n h = elim (Bool-cases (m.node_id =? k)) [
  | inl hit ↦ ground (arith, get-put m.node_id k m d, =?_iff m.node_id k)
  | inr miss ↦ named k n (ground (arith, get-put m.node_id k m d))
]

pub node_map-Named : (ns : List Node) (d : Dict String Node) → Named d → Named (node_map ns d)
unfolding node_map
node_map-Named [] d h = h
node_map-Named (n ∷ ns) d h = node_map-Named ns (put n.node_id n d) (put-Named n d h)

pub ok-inj : {A : Type 0} {a b : A} → ◌≡◌ {A = Result SceneError A} (ok a) (ok b) → a ≡ b
ok-inj h = cc

pub Result-cases :
    {E A : Type 0} (r : Result E A) → ((a : A) × (r ≡ ok a)) ⊎ ((e : E) × (r ≡ err e))
Result-cases (ok a) = inl (a, refl)
Result-cases (err e) = inr (e, refl)

submit_node-name : (w : Workers) (i : ℕ) (n : Node) → (submit_node w i n).node_id ≡ n.node_id
unfolding submit_node
submit_node-name w i n = elim (Bool-cases (w.has_case n.case_id)) [
  | inl hit ↦ rw hit refl
  | inr miss ↦ rw miss refl
]

run_node-Ended :
    (w : Workers) (i : ℕ) (n : Node) (x : NodeExec)
    → run_node w i n ≡ ok x
    → (x.node_id ≡ n.node_id) × Ended x
unfolding run_node submit_node end_node is_ended_well is_lost
run_node-Ended w i n x h = elim (Bool-cases (w.has_case n.case_id)) [
  | inr miss ↦ rw (← ok-inj (rw (miss, run_node, submit_node) at h)) (refl, refl)
  | inl hit ↦ elim (Option-cases (w.end_of n)) [
    | inl e ↦ absurd (cc (rw (hit, e, run_node) at h))
    | inr (z, e) ↦ elim (Bool-cases z.succeeded) [
      | inl good ↦
          rw (← ok-inj (rw (hit, e, run_node, end_node) at h))
            (submit_node-name w i n, rw good refl)
      | inr bad ↦
          rw (← ok-inj (rw (hit, e, run_node, end_node) at h)) (submit_node-name w i n, rw bad refl)
    ]
  ]
]

run_layer-Ended :
    (w : Workers) (d : Dict String Node)
    → Named d
    → (i : ℕ) (ks : List String) (ys : List NodeExec) → run_layer w d i ks ≡ ok ys
    → (names ys ≡ ks) × All Ended ys
unfolding run_layer
run_layer-Ended w d named i [] ys h = rw (← ok-inj h) (refl, tt)
run_layer-Ended w d named i (k ∷ ks) ys h = elim (Option-cases (get k d)) [
  | inl e ↦ absurd (cc (rw (e, run_layer) at h))
  | inr (n, e) ↦ elim (Result-cases (run_node w i n)) [
    | inr (x, f) ↦ absurd (cc (rw (e, f, run_layer) at h))
    | inl (x, f) ↦ elim (Result-cases (run_layer w d i ks)) [
      | inr (y, g) ↦ absurd (cc (rw (e, f, g, run_layer) at h))
      | inl (xs, g) ↦
          let (same, ended) = run_node-Ended w i n x f in
          let (rest, all) = run_layer-Ended w d named i ks xs g in
          rw (← ok-inj (rw (e, f, g, run_layer) at h)) (cc (same, named k n e, rest), (ended, all))
    ]
  ]
]

find_exec-names : (k : String) (xs : List NodeExec) → count k (names xs) ≡ 0 → find_exec k xs ≡ none
unfolding find_exec
find_exec-names k [] h = refl
find_exec-names k (x ∷ xs) h = ground (arith, find_exec-names k xs)

names-append : (xs ys : List NodeExec) → names (xs ++ ys) ≡ names xs ++ names ys
names-append [] ys = refl
names-append (x ∷ xs) ys = ap (λ (l : List String). x.node_id ∷ l) (names-append xs ys)

Ended-append : (xs ys : List NodeExec) → All Ended xs → All Ended ys → All Ended (xs ++ ys)
Ended-append [] ys h k = k
Ended-append (x ∷ xs) ys (e, h) k = (e, Ended-append xs ys h k)

-- Rows that are added one after the other.
Adds-trans :
    {xs ys zs : List NodeExec} {ks ls : List String} {flag more : Bool}
    → Adds xs ks flag ys
    → Adds ys ls more zs
    → Adds xs (ks ++ ls) (if flag then true else more) zs
Adds-trans {xs} {ys} {zs} {ks} {ls} {flag} {more} a b = record {
  added = a.added ++ b.added;
  all = b.all ∙ ap (λ l. l ++ b.added) a.all ∙ append_assoc xs a.added b.added;
  named =
      names-append a.added b.added
      ∙ ap (λ l. l ++ names b.added) a.named
      ∙ ap (λ l. ks ++ l) b.named;
  ended = Ended-append a.added b.added a.ended b.ended;
  flagged = rw (← a.flagged, ← b.flagged) (any-append a.added b.added);
}
  where
    any-append :
        (us vs : List NodeExec)
        → any aborts (us ++ vs) ≡ (if any aborts us then true else any aborts vs)
    any-append [] vs = refl
    any-append (u ∷ us) vs = ground (arith, any-append us vs)

cancel_remaining-Adds :
    (d : Dict String Node)
    → Named d
    → (layers : List (List String)) (ks : List String) (xs zs : List NodeExec)
    → Distinct (names xs ++ ks)
    → cancel_remaining d layers ks xs ≡ ok zs
    → Adds xs ks false zs
unfolding cancel_remaining cancelled_exec is_ended_well is_lost aborts
cancel_remaining-Adds d named layers [] xs zs distinct h = record {
  added = [];
  all = sym (ok-inj h) ∙ sym (append-nil xs);
  named = refl;
  ended = tt;
  flagged = refl;
}
cancel_remaining-Adds d named layers (k ∷ ks) xs zs distinct h =
    let absent : find_exec k xs ≡ none =
      find_exec-names k xs
        (ground (arith, distinct k, count-append k (names xs) (k ∷ ks), =?_iff k k)) in
    elim (Option-cases (get k d)) [
      | inl e ↦ absurd (cc (rw (absent, e, cancel_remaining) at h))
      | inr (n, e) ↦
          let x = cancelled_exec (layer_index k layers) n in
          let here : Adds xs (k ∷ []) false (xs ++ x ∷ []) = record {
            added = x ∷ [];
            all = refl;
            named = ap (λ (s : String). s ∷ []) (named k n e);
            ended = (refl, tt);
            flagged = refl;
          } in
          let moved : names (xs ++ x ∷ []) ++ ks ≡ names xs ++ k ∷ ks =
            ap (λ l. l ++ ks) (names-append xs (x ∷ []) ∙ ap (λ l. names xs ++ l) here.named)
            ∙ append_assoc (names xs) (k ∷ []) ks in
          Adds-trans here (
            cancel_remaining-Adds d named layers ks (xs ++ x ∷ []) zs (rw (← moved) at distinct)
              (rw (absent, e, cancel_remaining, cancelled_exec) at h))
    ]

keep-any : (xs : List NodeExec) → is_empty (keep aborts xs) ≡ not (any aborts xs)
keep-any [] = refl
keep-any (x ∷ xs) = ground (arith, keep-any xs)

pub run_layers-Adds :
    (w : Workers) (d : Dict String Node)
    → Named d
    → (layers : List (List String)) (i : ℕ) (ls : List (List String)) (xs : List NodeExec)
      (flag : Bool) (zs : List NodeExec)
    → Distinct (names xs ++ concat ls)
    → run_layers w d layers i ls xs ≡ ok (flag, zs)
    → Adds xs (concat ls) flag zs
unfolding run_layers abort_nodes
run_layers-Adds w d named layers i [] xs flag zs distinct h =
    let same = ok-inj h in
    record {
      added = [];
      all = sym (ap (λ p. p.1) same) ∙ sym (append-nil xs);
      named = refl;
      ended = tt;
      flagged = ap (λ p. p.0) same;
    }
run_layers-Adds w d named layers i (l ∷ ls) xs flag zs distinct h =
    elim (Result-cases (run_layer w d i l)) [
      | inr (e, f) ↦ absurd (cc (rw (f, run_layers) at h))
      | inl (ys, f) ↦
          let (same, ended) = run_layer-Ended w d named i l ys f in
          let moved : names (xs ++ ys) ++ concat ls ≡ names xs ++ (l ++ concat ls) =
            ap (λ t. t ++ concat ls) (names-append xs ys ∙ ap (λ t. names xs ++ t) same)
            ∙ append_assoc (names xs) l (concat ls) in
          let apart : Distinct (names (xs ++ ys) ++ concat ls) = rw (← moved) at distinct in
          elim (Bool-cases (any aborts ys)) [
            | inr calm ↦
                let empty : is_empty (keep aborts ys) ≡ true = keep-any ys ∙ ap not calm in
                let here : Adds xs l false (xs ++ ys) = record {
                  added = ys;
                  all = refl;
                  named = same;
                  ended = ended;
                  flagged = calm;
                } in
                Adds-trans here (
                  run_layers-Adds w d named layers (i + 1) ls (xs ++ ys) flag zs apart
                    (rw (f, run_layers, abort_nodes, empty) at h))
            | inl hit ↦
                let full : is_empty (keep aborts ys) ≡ false = keep-any ys ∙ ap not hit in
                elim (Result-cases (cancel_remaining d layers (concat ls) (xs ++ ys))) [
                  | inr (e, g) ↦ absurd (cc (rw (f, run_layers, abort_nodes, full, g) at h))
                  | inl (us, g) ↦
                      let ends = ok-inj (rw (f, run_layers, abort_nodes, full, g) at h) in
                      let here : Adds xs l true (xs ++ ys) = record {
                        added = ys;
                        all = refl;
                        named = same;
                        ended = ended;
                        flagged = hit;
                      } in
                      rw
                        (
                          ← ap (λ (p : Bool × List NodeExec). p.0) ends,
                          ← ap (λ (p : Bool × List NodeExec). p.1) ends,
                        )
                        (Adds-trans here
                          (cancel_remaining-Adds d named layers (concat ls) (xs ++ ys) us apart g))
                ]
          ]
    ]
