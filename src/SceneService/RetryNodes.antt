-- ===== src/SceneService/RetryNodes.antt =====
-- `retry_scene_nodes` and the `retry_failed_nodes` of backend/app/engine/scene_executor.py that it sends.
use data_factory.Base.{
  ◌≡◌, ◌≢◌, ◌↔◌, if◌then◌else◌, refl, ap, ◌∙◌, String, Bool, true, false, not, some, List, [], ◌∷◌,
  map, string_eq, keep, any, is_empty, All, Bool-cases, ◌⊎◌, inl, inr, arith, ◌=?◌, =?_iff, =?_refl,
}
use data_factory.Base.Count.{contains}
use data_factory.Base.Result.{ok}
use data_factory.TaskService.Types.{User}
use data_factory.Scene.{
  NodeExec, Workers, SceneExec, is_lost, is_retried, retry_failed_nodes, retry_execs, skipped,
}
use data_factory.Scene.Runs.{Result-cases}
use data_factory.SceneService.{
  param_invalid, scene_forbidden, scene_submit_failed, NodeRow, SceneRun, get_scene_exec_checked,
  owns_run, is_active, chosen_rows, retry_scene_nodes,
}
use data_factory.SceneService.Valid.{raise_if-ok}
use data_factory.SceneService.Requests.{get_scene_exec_checked-same}

abbrev retryable : List String → List NodeRow → List NodeRow
retryable node_ids rows = keep (λ r. is_lost r.exec) (chosen_rows node_ids rows)

abbrev ids_of : List NodeRow → List String
ids_of rows = map (λ r. r.exec.node_id) rows

abbrev pub execs_of : SceneRun → List NodeExec
execs_of run = map (λ r. r.exec) run.rows

sent_chosen :
    (node_ids : List String) (rows : List NodeRow) (k : String)
    → contains k (ids_of (retryable node_ids rows)) ≡ true
    → contains k node_ids ≡ true
unfolding chosen_rows
sent_chosen node_ids [] k h = absurd (cc h)
sent_chosen node_ids (r ∷ rows) k h = elim (Bool-cases (contains r.exec.node_id node_ids)) [
  | inr other ↦ sent_chosen node_ids rows k (rw other at h)
  | inl chosen ↦ elim (Bool-cases (is_lost r.exec)) [
    | inr fine ↦ sent_chosen node_ids rows k (rw (chosen, fine) at h)
    | inl lost ↦ elim (Bool-cases (r.exec.node_id =? k)) [
      | inl same ↦ rw (← (=?_iff r.exec.node_id k).0 same) chosen
      | inr differs ↦ sent_chosen node_ids rows k (rw (chosen, lost, differs) at h)
    ]
  ]
]

-- A chosen row that is lost is sent.
abbrev Sent : List String → List String → NodeRow → Type 0
Sent sent node_ids r =
    contains r.exec.node_id node_ids ≡ true
    → is_lost r.exec ≡ true
    → contains r.exec.node_id sent ≡ true

Sent-all :
    (node_ids sent : List String) (rows : List NodeRow)
    → ((k : String) → contains k (ids_of (retryable node_ids rows)) ≡ true → contains k sent ≡ true)
    → All (λ r. Sent sent node_ids r) rows
unfolding chosen_rows
Sent-all node_ids sent [] h = tt
Sent-all node_ids sent (r ∷ rows) h = (
  λ chosen lost. h r.exec.node_id (rw (chosen, lost, =?_refl r.exec.node_id) refl),
  Sent-all node_ids sent rows (λ k e.
      h k (more k e (Bool-cases (contains r.exec.node_id node_ids)) (Bool-cases (is_lost r.exec)))),
)
  where
    more :
        (k : String)
        → contains k (ids_of (retryable node_ids rows)) ≡ true
        → (contains r.exec.node_id node_ids ≡ true) ⊎ (contains r.exec.node_id node_ids ≡ false)
        → (is_lost r.exec ≡ true) ⊎ (is_lost r.exec ≡ false)
        → contains k (ids_of (retryable node_ids (r ∷ rows))) ≡ true
    more k e (inr other) _ = rw other e
    more k e (inl chosen) (inr fine) = rw (chosen, fine) e
    more k e (inl chosen) (inl lost) = rw (chosen, lost, e) (ground arith)

retried_agrees :
    (node_ids sent : List String) (x : NodeExec)
    → ((k : String) → contains k sent ≡ true → contains k node_ids ≡ true)
    → (contains x.node_id node_ids ≡ true → is_lost x ≡ true → contains x.node_id sent ≡ true)
    → is_retried sent x ≡ is_retried node_ids x
unfolding is_retried
retried_agrees node_ids sent x back there = elim (Bool-cases (is_lost x)) [
  | inr fine ↦ rw fine (ground arith)
  | inl lost ↦ elim (Bool-cases (contains x.node_id node_ids)) [
    | inl chosen ↦ rw (chosen, there chosen lost) refl
    | inr other ↦ elim (Bool-cases (contains x.node_id sent)) [
      | inl found ↦ absurd (cc (back x.node_id found, other))
      | inr unsent ↦ rw (other, unsent) refl
    ]
  ]
]

same_retried :
    (node_ids sent : List String) (rows : List NodeRow)
    → ((k : String) → contains k sent ≡ true → contains k node_ids ≡ true)
    → All (λ r. Sent sent node_ids r) rows
    → keep (is_retried sent) (map (λ r. r.exec) rows)
      ≡ keep (is_retried node_ids) (map (λ r. r.exec) rows)
same_retried node_ids sent [] back h = refl
same_retried node_ids sent (r ∷ rows) back (there, h) =
    rw (retried_agrees node_ids sent r.exec back there, same_retried node_ids sent rows back h) refl

some_retried :
    (node_ids : List String) (rows : List NodeRow)
    → is_empty (retryable node_ids rows) ≡ false
    → is_empty (keep (is_retried node_ids) (map (λ r. r.exec) rows)) ≡ false
unfolding chosen_rows is_retried
some_retried node_ids [] h = absurd (cc h)
some_retried node_ids (r ∷ rows) h = elim (Bool-cases (contains r.exec.node_id node_ids)) [
  | inr other ↦ rw other (some_retried node_ids rows (rw other at h))
  | inl chosen ↦ elim (Bool-cases (is_lost r.exec)) [
    | inr fine ↦ rw (chosen, fine) (some_retried node_ids rows (rw (chosen, fine) at h))
    | inl lost ↦ rw (chosen, lost) refl
  ]
]

-- Some row of the node failed or was cancelled.
pub has_lost : String → List NodeRow → Bool
has_lost k rows = any (λ r. if r.exec.node_id =? k then is_lost r.exec else false) rows

-- A chosen node is among the sent ones when a row of it is lost, and only then.
sent_iff :
    (node_ids : List String) (rows : List NodeRow) (k : String)
    → (contains k (ids_of (retryable node_ids rows)) ≡ true)
      ↔ ((contains k node_ids ≡ true) × (has_lost k rows ≡ true))
unfolding chosen_rows has_lost
sent_iff node_ids [] k = (λ h. absurd (cc h), λ h. absurd (cc (h.1)))
sent_iff node_ids (r ∷ rows) k =
    let rest = sent_iff node_ids rows k in
    elim (Bool-cases (r.exec.node_id =? k)) [
      | inl same ↦
          let e = (=?_iff r.exec.node_id k).0 same in
          elim (Bool-cases (contains r.exec.node_id node_ids)) [
            | inl chosen ↦ elim (Bool-cases (is_lost r.exec)) [
              | inl lost ↦ rw (chosen, lost, same) (λ _. (rw (← e) chosen, refl), λ _. refl)
              | inr fine ↦ rw (chosen, fine, same) rest
            ]
            | inr other ↦
                let unchosen : contains k node_ids ≡ false = rw e at other in
                rw (other, same)
                  (λ h. absurd (cc (unchosen, (rest.0 h).0)), λ h. absurd (cc (unchosen, h.0)))
          ]
      | inr differs ↦ elim (Bool-cases (contains r.exec.node_id node_ids)) [
        | inl chosen ↦ elim (Bool-cases (is_lost r.exec)) [
          | inl lost ↦ rw (chosen, lost, differs) rest
          | inr fine ↦ rw (chosen, fine, differs) rest
        ]
        | inr other ↦ rw (other, differs) rest
      ]
    ]

-- A granted request sends the chosen nodes that failed or were cancelled, and no others. The retry
-- runs the same rows again as one of the chosen nodes would, there is one, and it is not skipped. The
-- execution does not wait or run, its user may act on it, and Celery takes the task.
pub retry_scene_nodes-Retries :
    (user : User) (run : SceneRun) (node_ids sent : List String) (submitted : Bool)
    → retry_scene_nodes user (some run) node_ids submitted ≡ ok sent
    → (is_active run.status ≡ false)
      × (owns_run user run ≡ true)
      × (submitted ≡ true)
      × ((k : String)
          → (contains k sent ≡ true)
            ↔ ((contains k node_ids ≡ true) × (has_lost k run.rows ≡ true)))
      × (keep (is_retried sent) (execs_of run) ≡ keep (is_retried node_ids) (execs_of run))
      × ((w : Workers) (s : SceneExec) → (retry_failed_nodes w sent (execs_of run) s).0 ≢ skipped)
unfolding retry_scene_nodes retry_failed_nodes
retry_scene_nodes-Retries user run node_ids sent submitted h =
    elim (Result-cases (get_scene_exec_checked user (some run))) [
      | inr (_, g) ↦ absurd (cc (rw (retry_scene_nodes, g) at h))
      | inl (r, g) ↦
          let same = get_scene_exec_checked-same user run r g in
          let (a, h1) =
            raise_if-ok (not (owns_run user r)) scene_forbidden _
              (rw (retry_scene_nodes, g) at h) in
          let (b, h2) = raise_if-ok (is_active r.status) param_invalid _ h1 in
          let (_, h3) =
            raise_if-ok
              (any (λ k. not (contains k (ids_of (chosen_rows node_ids r.rows)))) node_ids)
              param_invalid _ h2 in
          let (some_left, h4) =
            raise_if-ok (is_empty (retryable node_ids r.rows)) param_invalid _ h3 in
          let (taken, h5) = raise_if-ok (not submitted) scene_submit_failed _ h4 in
          let named : ids_of (retryable node_ids r.rows) ≡ sent = cc (h5) in
          let retried : keep (is_retried sent) (execs_of run)
              ≡ keep (is_retried node_ids) (execs_of run) =
            rw (← named, same)
              (same_retried node_ids (ids_of (retryable node_ids r.rows)) r.rows
                (sent_chosen node_ids r.rows)
                (Sent-all node_ids (ids_of (retryable node_ids r.rows)) r.rows (λ k e. e))) in
          (
            rw same b,
            rw same (ground (arith, a)),
            ground (arith, taken),
            λ k. rw (← named, same) (sent_iff node_ids r.rows k),
            retried,
            λ w s.
                not_skipped w s sent
                  (ap is_empty retried ∙ rw same (some_retried node_ids r.rows some_left)),
          )
    ]
  where
    not_skipped :
        (w : Workers) (s : SceneExec) (ks : List String)
        → is_empty (keep (is_retried ks) (execs_of run)) ≡ false
        → (retry_failed_nodes w ks (execs_of run) s).0 ≢ skipped
    not_skipped w s ks e k = elim (Result-cases (retry_execs w ks (execs_of run))) [
      | inl (ys, f) ↦ absurd (cc (rw (retry_failed_nodes, e, f) at k))
      | inr (x, f) ↦ absurd (cc (rw (retry_failed_nodes, e, f) at k))
    ]
