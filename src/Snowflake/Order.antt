-- ===== src/Snowflake/Order.antt =====
-- The identifiers of a generator grow, whatever the clock does.
use data_factory.Base.{
  ℕ, zero, suc, ◌+◌, ◌%◌, ◌≤◌, ◌<◌, ◌≡◌, refl, true, false, some, List, [], ◌∷◌, ◌==◌, ltb, any,
  Bool-cases, Option-cases, inl, inr, arith,
}
use mathlib.Core.Option.{some-injective}
use data_factory.Snowflake.{
  epoch, sequence_range, Generator, wait_next_ms, compose, Issued, issue, caught_up, issue_at,
  next_id, issue_all,
}

-- The fields of an identifier fit their bits.
pub record Fits (g : Generator) : Type 0 where
  pub datacenter : g.datacenter_id < 32
  pub machine : g.machine_id < 32
  pub sequence : g.sequence < sequence_range

-- The identifier `x` was issued by `g`, and none later: the next one will be after it.
pub record Last (g : Generator) (x : ℕ) : Type 0 where
  pub time : ℕ
  pub is_last : g.last_timestamp ≡ some time
  pub after_epoch : epoch ≤ time
  pub is_id : x ≡ compose g time g.sequence

wait_next_ms-later :
    (last : ℕ) (ts : List ℕ) (r : ℕ × List ℕ) → wait_next_ms last ts ≡ some r → last < r.0
unfolding wait_next_ms
wait_next_ms-later last [] r h = cc
wait_next_ms-later last (t ∷ ts) r h = elim (Bool-cases (ltb last t)) [
  | inl hit ↦ rw (← some-injective _ _ (rw (hit, wait_next_ms) at h)) (ground arith)
  | inr miss ↦ wait_next_ms-later last ts r (rw (miss, wait_next_ms) at h)
]

-- A later time gives a greater identifier, and so does a later number at the same time.
compose-later :
    (g : Generator) (s t m n : ℕ)
    → Fits g
    → m < sequence_range
    → epoch ≤ s
    → s < t
    → compose g s m < compose g t n
unfolding compose
compose-later g s t m n fits small after later = omega (arith, fits.datacenter, fits.machine)

compose-same : (g : Generator) (s m n : ℕ) → m < n → compose g s m < compose g s n
unfolding compose
compose-same g s m n h = omega arith

-- `r` was issued after `x`: it is greater, and the generator goes on from it.
pub record Next (x : ℕ) (g : Generator) (r : Issued) : Type 0 where
  pub greater : x < r.id
  pub last : Last r.generator r.id
  pub fits : Fits r.generator

issue-Next :
    (g : Generator) (x t n : ℕ) (ts : List ℕ)
    → Fits g
    → n < sequence_range
    → epoch ≤ t
    → x < compose g t n
    → Next x g (issue g t n ts)
unfolding issue compose
issue-Next g x t n ts fits small after h = record {
  greater = h;
  last = record { time = t; is_last = refl; after_epoch = after; is_id = refl };
  fits = record { datacenter = fits.datacenter; machine = fits.machine; sequence = small };
}

next_sequence :
    (n : ℕ)
    → n < sequence_range
    → ((n + 1) % sequence_range == 0) ≡ false
    → (n + 1) % sequence_range ≡ n + 1
next_sequence n small room = ground arith

same_time : (a b : ℕ) → (a == b) ≡ true → a ≡ b
same_time a b h = ground arith

issue_at-Next :
    (g : Generator) (x t : ℕ) (ts : List ℕ) (last : Last g x) (r : Issued)
    → Fits g
    → last.time ≤ t
    → issue_at g t ts ≡ some r
    → Next x g r
unfolding issue_at
issue_at-Next g x t ts last r fits later h =
    let now = rw (last.is_last, issue_at) at h in
    elim (Bool-cases (t == last.time)) [
      | inr miss ↦ rw (← some-injective _ _ (rw miss at now)) (
          issue-Next g x t 0 ts fits (omega arith) (omega (arith, last.after_epoch)) (
            rw last.is_id (
              compose-later g last.time t g.sequence 0 fits fits.sequence last.after_epoch
                (ground arith))))
      | inl hit ↦ elim (Bool-cases ((g.sequence + 1) % sequence_range == 0)) [
        | inl full ↦ elim (Option-cases (wait_next_ms t ts)) [
          | inl e ↦ absurd (cc (rw (hit, full, e) at now))
          | inr (w, e) ↦
              let passed = wait_next_ms-later t ts w e in
              rw (← some-injective _ _ (rw (hit, full, e) at now)) (
                issue-Next g x (w.0) 0 (w.1) fits (omega arith) (omega (arith, last.after_epoch)) (
                  rw last.is_id (
                    compose-later g last.time (w.0) g.sequence 0 fits fits.sequence last.after_epoch
                      (omega arith))))
        ]
        | inr room ↦
            let n = (g.sequence + 1) % sequence_range in
            let counted : n ≡ g.sequence + 1 = next_sequence g.sequence fits.sequence room in
            rw (← some-injective _ _ (rw (hit, room) at now)) (
              issue-Next g x t n ts fits (omega arith) (omega (arith, last.after_epoch)) (
                rw (last.is_id, same_time t last.time hit)
                  (compose-same g last.time g.sequence n (omega arith))))
      ]
    ]

caught_up-later :
    (last t : ℕ) (ts : List ℕ) (w : ℕ × List ℕ) → caught_up (some last) t ts ≡ some w → last ≤ w.0
unfolding caught_up
caught_up-later last t ts w h = elim (Bool-cases (ltb t last)) [
  | inl back ↦ omega (arith, wait_next_ms-later last ts w (rw (back, caught_up) at h))
  | inr on ↦ rw (← some-injective _ _ (rw (on, caught_up) at h)) (ground arith)
]

-- After an identifier the next one is greater, also over a clock that is set back or stands still,
-- and the generator stays well-formed.
pub next_id-Next :
    (g : Generator) (x : ℕ) (ts : List ℕ) (r : Issued)
    → Fits g
    → Last g x
    → next_id g ts ≡ some r
    → Next x g r
unfolding next_id
next_id-Next g x [] r fits last h = cc
next_id-Next g x (t ∷ ts) r fits last h = elim (Option-cases (caught_up g.last_timestamp t ts)) [
  | inl e ↦ absurd (cc (rw (e, next_id) at h))
  | inr (w, e) ↦
      issue_at-Next g x (w.0) (w.1) last r fits
        (caught_up-later last.time t ts w (rw last.is_last at e)) (rw (e, next_id) at h)
]

-- Each is greater than the one before it.
abbrev pub Increasing : ℕ → List ℕ → Type 0
Increasing x [] = Unit
Increasing x (y ∷ ys) = (x < y) × Increasing y ys

-- All the identifiers that a well-formed generator issues after its last one `x` are greater, each than the
-- one before it, whatever the clock reads.
pub issue_all-Increasing :
    (n : ℕ) (g : Generator) (x : ℕ) (ts ys : List ℕ)
    → Fits g
    → Last g x
    → issue_all n g ts ≡ some ys
    → Increasing x ys
unfolding issue_all
issue_all-Increasing zero g x ts ys fits last h = rw (← some-injective _ _ h) tt
issue_all-Increasing (suc n) g x ts ys fits last h = elim (Option-cases (next_id g ts)) [
  | inl e ↦ absurd (cc (rw (e, issue_all) at h))
  | inr (r, e) ↦ elim (Option-cases (issue_all n r.generator r.readings)) [
    | inl f ↦ absurd (cc (rw (e, f, issue_all) at h))
    | inr (zs, f) ↦
        let step = next_id-Next g x ts r fits last e in
        rw (← some-injective _ _ (rw (e, f, issue_all) at h)) (
          step.greater,
          issue_all-Increasing n r.generator r.id r.readings zs step.fits step.last f,
        )
  ]
]

wait_next_ms-any :
    (last : ℕ) (ts : List ℕ)
    → any (ltb last) ts ≡ true
    → (r : ℕ × List ℕ) × (wait_next_ms last ts ≡ some r)
unfolding wait_next_ms
wait_next_ms-any last [] h = absurd (cc h)
wait_next_ms-any last (t ∷ ts) h = elim (Bool-cases (ltb last t)) [
  | inl hit ↦ ((t, ts), rw hit refl)
  | inr miss ↦ let (r, e) = wait_next_ms-any last ts (ground (arith, h)) in (r, rw miss e)
]

issue_at-some :
    (g : Generator) (last t : ℕ) (ts : List ℕ)
    → g.last_timestamp ≡ some last
    → (t ≡ last → any (ltb last) ts ≡ true)
    → (r : Issued) × (issue_at g t ts ≡ some r)
unfolding issue_at
issue_at-some g last t ts is_last goes_on = elim (Bool-cases (t == last)) [
  | inr miss ↦ (issue g t 0 ts, rw (is_last, issue_at, miss) refl)
  | inl hit ↦
      let same = same_time t last hit in
      elim (Bool-cases ((g.sequence + 1) % sequence_range == 0)) [
        | inr room ↦ (
          issue g t ((g.sequence + 1) % sequence_range) ts,
          rw (is_last, issue_at, hit, room) refl,
        )
        | inl full ↦
            let (w, e) = wait_next_ms-any t ts (rw same (goes_on same)) in
            (issue g (w.0) 0 (w.1), rw (is_last, issue_at, hit, full, e) refl)
      ]
]

-- A clock that passes the last time once more after its first reading is enough for an identifier.
pub next_id_total :
    (g : Generator) (last t : ℕ) (ts : List ℕ)
    → g.last_timestamp ≡ some last
    → any (ltb last) ts ≡ true
    → (r : Issued) × (next_id g (t ∷ ts) ≡ some r)
unfolding next_id caught_up
next_id_total g last t ts is_last goes_on = elim (Bool-cases (ltb t last)) [
  | inl back ↦
      let (w, e) = wait_next_ms-any last ts goes_on in
      let later = wait_next_ms-later last ts w e in
      let (r, f) =
        issue_at-some g last (w.0) (w.1) is_last (λ same. absurd (omega (arith, same, later))) in
      (r, rw (is_last, next_id, caught_up, back, e) f)
  | inr on ↦
      let (r, f) = issue_at-some g last t ts is_last (λ _. goes_on) in
      (r, rw (is_last, next_id, caught_up, on) f)
]
