-- ===== src/UserService/Lock.antt =====
-- Guessing a password: failed logins lock the name.
use data_factory.Base.{
  ℕ, suc, ◌+◌, ◌≤◌, ◌≡◌, refl, ap, ◌∙◌, String, true, false, none, some, List, [], ◌∷◌,
  if◌then◌else◌, ◌=?◌, =?_refl, string_eq, leb, length, All, Bool-cases, ◌⊎◌, inl, inr, arith,
}
use data_factory.Base.Dict.{put, get-put}
use data_factory.Base.Result.{Result, err}
use data_factory.UserService.{
  UserStatus, Account, Users, UserError, login_locked, Passwords, Redis, find_name, fail_count,
  check_status, password_ok, count_failure, check_password, check_account, login,
}

-- Redis answers every call.
abbrev pub up : Redis
up = record { gets = true; counts = true; deletes = true }

-- There is no such account, or it is normal and the password is not its own.
abbrev pub Wrong : Passwords → String → List Account → String → Type 0
Wrong p name accounts password =
    (find_name name accounts ≡ none)
    ⊎ ((a : Account) × (find_name name accounts ≡ some a)
        × (a.status ≡ UserStatus.normal)
        × (p.verify password a.password ≡ false))

-- The users after logins with these passwords, one after the other.
abbrev pub after : Passwords → (max_times : ℕ) → String → List String → Users → Users
after p max_times name [] u = u
after p max_times name (w ∷ ws) u = after p max_times name ws (login p up max_times name w u).1

failed :
    (p : Passwords) (max_times : ℕ) (name w : String) (u : Users)
    → Wrong p name u.accounts w
    → leb max_times (fail_count up name u) ≡ false
    → (login p up max_times name w u).1
      ≡ record u { login_fails = put name (suc (fail_count up name u)) u.login_fails }
unfolding login check_account check_password password_ok check_status count_failure
failed p max_times name w u (inl e) free =
    rw (login, free, check_account, e, check_password, count_failure) refl
failed p max_times name w u (inr (a, e, s, v)) free =
    rw (login, free, check_account, e, s, check_password, password_ok, v, count_failure) refl

locked :
    (p : Passwords) (max_times : ℕ) (name w : String) (u : Users)
    → leb max_times (fail_count up name u) ≡ true
    → login p up max_times name w u ≡ (err login_locked, u)
unfolding login
locked p max_times name w u h = rw (login, h) refl

counted :
    (name k : String) (n : ℕ) (u : Users)
    → fail_count up k (record u { login_fails = put name n u.login_fails })
      ≡ (if name =? k then n else fail_count up k u)
unfolding fail_count
counted name k n u =
    rw (get-put name k n u.login_fails)
      (elim (Bool-cases (name =? k)) [ inl hit ↦ rw hit refl | inr miss ↦ rw miss refl ])

-- What logins with wrong passwords leave: the counter of the name has gone up to the limit or by their number,
-- and the accounts and the counters of the other names are as they were.
record Counted (max_times : ℕ) (name : String) (n : ℕ) (u v : Users) : Type 0 where
  accounts : v.accounts ≡ u.accounts
  enough : (max_times ≤ fail_count up name v) ⊎ (fail_count up name v ≡ fail_count up name u + n)
  others : (k : String) → (name =? k) ≡ false → fail_count up k v ≡ fail_count up k u

after-Counted :
    (p : Passwords) (max_times : ℕ) (name : String) (ws : List String) (u : Users)
    → All (λ w. Wrong p name u.accounts w) ws
    → Counted max_times name (length ws) u (after p max_times name ws u)
after-Counted p max_times name [] u h = record {
  accounts = refl;
  enough = inr (omega arith);
  others = λ k e. refl;
}
after-Counted p max_times name (w ∷ ws) u (wrong, h) =
    elim (Bool-cases (leb max_times (fail_count up name u))) [
      | inl full ↦
          let same : (login p up max_times name w u).1 ≡ u =
            ap (λ (x : Result UserError ℕ × Users). x.1) (locked p max_times name w u full) in
          let rest = after-Counted p max_times name ws u h in
          rw same (record {
            accounts = rest.accounts;
            enough = elim rest.enough [ inl x ↦ inl x | inr e ↦ inl (ground (arith, e, full)) ];
            others = rest.others;
          })
      | inr free ↦
          let next : Users = record u {
            login_fails = put name (suc (fail_count up name u)) u.login_fails;
          } in
          let same : (login p up max_times name w u).1 ≡ next =
            failed p max_times name w u wrong free in
          let rest = after-Counted p max_times name ws next h in
          let own : fail_count up name next ≡ suc (fail_count up name u) =
            counted name name (suc (fail_count up name u)) u ∙ rw (=?_refl name) refl in
          rw same (record {
            accounts = rest.accounts;
            enough = elim rest.enough [ inl x ↦ inl x | inr e ↦ inr (omega (arith, e, own)) ];
            others =
                λ k e. rest.others k e ∙ counted name k (suc (fail_count up name u)) u ∙ rw e refl;
          })
    ]

-- After as many wrong passwords as the limit, whatever came before, no password lets the name in, the right
-- one included, until the counter lapses; the counters of other names and the accounts are untouched.
-- The name has no account or a normal one, and Redis answers.
pub login-Locks :
    (p : Passwords) (max_times : ℕ) (name : String) (ws : List String) (u : Users)
    → All (λ w. Wrong p name u.accounts w) ws
    → max_times ≤ length ws
    → ((password : String)
        → login p up max_times name password (after p max_times name ws u)
          ≡ (err login_locked, after p max_times name ws u))
      × ((after p max_times name ws u).accounts ≡ u.accounts)
      × ((k : String)
          → (name =? k) ≡ false
          → fail_count up k (after p max_times name ws u) ≡ fail_count up k u)
login-Locks p max_times name ws u wrong many =
    let c = after-Counted p max_times name ws u wrong in
    let full : leb max_times (fail_count up name (after p max_times name ws u)) ≡ true =
      elim c.enough [ inl x ↦ ground (arith, x) | inr e ↦ ground (arith, e, many) ] in
    (
      λ password. locked p max_times name password (after p max_times name ws u) full,
      c.accounts,
      c.others,
    )
