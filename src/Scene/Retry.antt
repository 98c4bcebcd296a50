-- ===== src/Scene/Retry.antt =====
-- `retry_failed_nodes`: what a retry of nodes leaves alone, and its verdict.
use data_factory.Base.{
  ℕ, suc, ◌↔◌, not, length, ◌≡◌, refl, ap, ◌∙◌, String, Bool, true, false, Option, some, List, [],
  ◌∷◌, if◌then◌else◌, string_eq, keep, is_empty, All, Bool-cases, Option-cases, inl, inr, arith,
}
use data_factory.Base.Result.{ok}
use data_factory.Scene.{
  NodeExec, NodeEnd, Workers, SceneExec, end_node, is_ended_well, is_lost, finished, is_retried,
  rerun_exec, retry_exec, retry_execs, retry_failed_nodes, SceneStatus, held_rows, finalize_scene,
}
use data_factory.Scene.Complete.{finalize_scene-runs}
use data_factory.Scene.Runs.{Ended, Result-cases, ok-inj}

-- `y` is the row `x` after a retry of the chosen nodes.
pub record Retried (chosen : List String) (x y : NodeExec) : Type 0 where
  pub same_node : y.node_id ≡ x.node_id
  pub same_layer : y.layer_no ≡ x.layer_no
  pub ended : Ended y
  pub untouched : is_retried chosen x ≡ false → y ≡ x
  pub kept_success : is_ended_well x ≡ true → y ≡ x

-- The rows before and after a retry, one by one.
pub RetriedAll : List String → List NodeExec → List NodeExec → Type 0
RetriedAll chosen [] [] = Unit
RetriedAll chosen (x ∷ xs) (y ∷ ys) = Retried chosen x y × RetriedAll chosen xs ys
RetriedAll chosen _ _ = ⊥

retried-lost :
    (chosen : List String) (x : NodeExec)
    → is_retried chosen x ≡ true
    → (is_lost x ≡ true) × (is_ended_well x ≡ false)
unfolding is_retried is_lost is_ended_well
retried-lost chosen x h = (ground arith, ground arith)

lost_with :
    (x : NodeExec) (t : Option String)
    → is_lost x ≡ true
    → is_lost (record x { error_msg = t }) ≡ true
unfolding is_lost
lost_with x t h = h

lost-Ended : (x : NodeExec) → is_lost x ≡ true → Ended x
unfolding is_lost is_ended_well
lost-Ended x h = ground arith

end_node-Ended : (e : NodeEnd) (x : NodeExec) → Ended (end_node e x)
unfolding end_node is_lost is_ended_well
end_node-Ended e x = ground arith

retry_exec-Retried :
    (w : Workers) (chosen : List String) (x y : NodeExec)
    → is_retried chosen x ≡ true
    → retry_exec w x ≡ ok y
    → Retried chosen x y
unfolding retry_exec rerun_exec end_node
retry_exec-Retried w chosen x y again h =
    let (lost, not_well) = retried-lost chosen x again in
    let fields : (y.node_id ≡ x.node_id) × ((y.layer_no ≡ x.layer_no) × Ended y) =
      elim (Bool-cases (w.has_case x.case_id)) [
        | inr miss ↦ rw (← ok-inj (rw (miss, retry_exec) at h)) (
          refl,
          (
            refl,
            lost-Ended (record x { error_msg = some "关联 Case 不存在或已删除，无法重试" }) (lost_with x _ lost),
          ),
        )
        | inl hit ↦
            elim (Option-cases (
              w.end_of (record {
                node_id = x.node_id;
                case_id = x.case_id;
                target_count = x.target_count;
                fail_strategy = some x.fail_strategy;
              }))) [
                | inl e ↦ absurd (cc (rw (hit, e, retry_exec) at h))
                | inr (z, e) ↦
                    rw (← ok-inj (rw (hit, e, retry_exec) at h))
                      (refl, (refl, end_node-Ended z (rerun_exec x)))
              ]
      ] in
    record {
      same_node = fields.0;
      same_layer = fields.1.0;
      ended = fields.1.1;
      untouched = λ n. absurd (cc (n, again));
      kept_success = λ n. absurd (cc (n, not_well));
    }

retry_execs-RetriedAll :
    (w : Workers) (chosen : List String) (xs ys : List NodeExec)
    → All Ended xs
    → retry_execs w chosen xs ≡ ok ys
    → RetriedAll chosen xs ys
unfolding retry_execs RetriedAll
retry_execs-RetriedAll w chosen [] ys h e = rw (← ok-inj e) tt
retry_execs-RetriedAll w chosen (x ∷ xs) ys (h, hs) e =
    elim (Result-cases (if is_retried chosen x then retry_exec w x else ok x)) [
      | inr (z, f) ↦ absurd (cc (rw (f, retry_execs) at e))
      | inl (y, f) ↦ elim (Result-cases (retry_execs w chosen xs)) [
        | inr (z, g) ↦ absurd (cc (rw (f, g, retry_execs) at e))
        | inl (zs, g) ↦
            rw (← ok-inj (rw (f, g, retry_execs) at e))
              (one f, retry_execs-RetriedAll w chosen xs zs hs g)
      ]
    ]
  where
    one :
        {y : NodeExec}
        → (if is_retried chosen x then retry_exec w x else ok x) ≡ ok y
        → Retried chosen x y
    one {y} f = elim (Bool-cases (is_retried chosen x)) [
      | inl again ↦ retry_exec-Retried w chosen x y again (rw again at f)
      | inr kept ↦
          let same : x ≡ y = ok-inj (rw kept at f) in
          rw (← same) (record {
            same_node = refl;
            same_layer = refl;
            ended = h;
            untouched = λ _. refl;
            kept_success = λ _. refl;
          })
    ]

-- A retry of nodes of ended rows that is finished keeps the rows in their places, their nodes and layers; each row is ended again,
-- and the rows that were not chosen or had succeeded are untouched.
pub retry_failed_nodes-RetriedAll :
    (w : Workers) (chosen : List String) (xs ys : List NodeExec) (s : SceneExec) (flag : Bool)
    → All Ended xs
    → (retry_failed_nodes w chosen xs s).0 ≡ finished flag ys
    → RetriedAll chosen xs ys
unfolding retry_failed_nodes
retry_failed_nodes-RetriedAll w chosen xs ys s flag h e =
    elim (Bool-cases (is_empty (keep (is_retried chosen) xs))) [
      | inl nothing ↦ absurd (cc (rw (nothing, retry_failed_nodes) at e))
      | inr some_lost ↦ elim (Result-cases (retry_execs w chosen xs)) [
        | inr (z, f) ↦ absurd (cc (rw (some_lost, f, retry_failed_nodes) at e))
        | inl (zs, f) ↦
            let same : finished false zs ≡ finished flag ys =
              rw (some_lost, f, retry_failed_nodes) at e in
            let eq : zs ≡ ys = cc in retry_execs-RetriedAll w chosen xs ys h (f ∙ ap ok eq)
      ]
    ]

-- The row counts as failed after a retry: it was lost, and it is not run again.
pub stays_lost : (has_case : ℕ → Bool) → List String → NodeExec → Bool
stays_lost has_case chosen x = if is_retried chosen x then not (has_case x.case_id) else is_lost x

held_rows-lost :
    (has_case : ℕ → Bool) (chosen : List String) (xs : List NodeExec)
    → length (keep is_lost (held_rows has_case chosen xs))
      ≡ length (keep (stays_lost has_case chosen) xs)
unfolding held_rows stays_lost rerun_exec is_lost
held_rows-lost has_case chosen [] = refl
held_rows-lost has_case chosen (x ∷ xs) =
    let rest = held_rows-lost has_case chosen xs in
    elim (Bool-cases (is_retried chosen x)) [
      | inl again ↦
          let lost = (retried-lost chosen x again).0 in
          elim (Bool-cases (has_case x.case_id)) [
            | inl there ↦ rw (again, there) rest
            | inr gone ↦ rw (again, gone, lost) (ap suc rest)
          ]
      | inr kept ↦ elim (Bool-cases (is_lost x)) [
        | inl lost ↦ rw (kept, lost) (ap suc rest)
        | inr fine ↦ rw (kept, fine) rest
      ]
    ]

-- The verdict of a finished retry does not see what has become of the nodes that were run again: they
-- count as not failed, also when they failed. The failed nodes are the lost rows that were not
-- run again, and the execution is a success when there are none, and only then.
pub retry_failed_nodes-Blind :
    (w : Workers) (chosen : List String) (xs ys : List NodeExec) (s : SceneExec) (flag : Bool)
    → (retry_failed_nodes w chosen xs s).0 ≡ finished flag ys
    → ((retry_failed_nodes w chosen xs s).1.fail_count
        ≡ length (keep (stays_lost w.has_case chosen) xs))
      × (((retry_failed_nodes w chosen xs s).1.status ≡ SceneStatus.success)
          ↔ (length (keep (stays_lost w.has_case chosen) xs) ≡ 0))
unfolding retry_failed_nodes finalize_scene
retry_failed_nodes-Blind w chosen xs ys s flag e =
    elim (Bool-cases (is_empty (keep (is_retried chosen) xs))) [
      | inl nothing ↦ absurd (cc (rw (nothing, retry_failed_nodes) at e))
      | inr some_lost ↦ elim (Result-cases (retry_execs w chosen xs)) [
        | inr (z, g) ↦ absurd (cc (rw (some_lost, g, retry_failed_nodes) at e))
        | inl (_, g) ↦
            let lost = held_rows-lost w.has_case chosen xs in
            let verdict = finalize_scene-runs (held_rows w.has_case chosen xs) in
            rw (some_lost, g, retry_failed_nodes, ← lost) (refl, verdict)
      ]
    ]
