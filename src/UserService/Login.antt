-- ===== src/UserService/Login.antt =====
-- `login`: who is let in.
use data_factory.Base.{
  ℕ, ◌≡◌, ◌↔◌, refl, ap, String, true, false, some, string_eq, leb, Bool-cases, Option-cases, ◌⊎◌,
  inl, inr,
}
use data_factory.Base.Result.{Result, ok, err}
use data_factory.UserService.{
  UserStatus, Account, Users, UserError, Passwords, Redis, find_name, fail_count, check_status,
  password_ok, clear_failures, check_password, check_account, login,
}

-- The account may log in with the password.
pub record Admits (p : Passwords) (redis : Redis) (max_times : ℕ) (name password : String)
    (u : Users) (id : ℕ) : Type 0 where
  pub account : Account
  pub found : find_name name u.accounts ≡ some account
  pub is_normal : account.status ≡ UserStatus.normal
  pub verified : p.verify password account.password ≡ true
  pub unlocked : leb max_times (fail_count redis name u) ≡ false
  pub named : account.id ≡ id

Result-cases :
    {A : Type 0} (r : Result UserError A) → ((a : A) × (r ≡ ok a)) ⊎ ((e : UserError) × (r ≡ err e))
Result-cases (ok a) = inl (a, refl)
Result-cases (err e) = inr (e, refl)

check_status-normal :
    (s : UserStatus) {x : Unit {0}} → check_status s ≡ ok x → s ≡ UserStatus.normal
unfolding check_status
check_status-normal UserStatus.pending h = absurd (cc h)
check_status-normal UserStatus.normal h = refl
check_status-normal UserStatus.disabled h = absurd (cc h)
check_status-normal UserStatus.rejected h = absurd (cc h)

admitted :
    (p : Passwords) (redis : Redis) (max_times : ℕ) (name password : String) (u : Users) (id : ℕ)
    → Admits p redis max_times name password u id
    → login p redis max_times name password u ≡ (ok id, clear_failures redis name u)
unfolding login check_account check_password password_ok check_status
admitted p redis max_times name password u id a =
    rw
      (
        a.unlocked, login, check_account, a.found, a.is_normal, check_password, password_ok,
        a.verified, a.named,
      )
      refl

-- A login succeeds just with the password of a normal account whose name is not locked.
pub login-Admits :
    (p : Passwords) (redis : Redis) (max_times : ℕ) (name password : String) (u : Users) (id : ℕ)
    → ((login p redis max_times name password u).0 ≡ ok id)
      ↔ Admits p redis max_times name password u id
unfolding login check_account check_password password_ok
login-Admits p redis max_times name password u id = (
  enters,
  λ a.
      ap (λ (x : Result UserError ℕ × Users). x.0)
        (admitted p redis max_times name password u id a),
)
  where
    enters :
        (login p redis max_times name password u).0 ≡ ok id
        → Admits p redis max_times name password u id
    enters h = elim (Bool-cases (leb max_times (fail_count redis name u))) [
      | inl locked ↦ absurd (cc (rw (login, locked) at h))
      | inr free ↦ elim (Option-cases (find_name name u.accounts)) [
        | inl e ↦ absurd (cc (rw (login, free, check_account, e, check_password) at h))
        | inr (a, e) ↦ elim (Result-cases (check_status a.status)) [
          | inr (x, s) ↦ absurd (cc (rw (login, free, check_account, e, s) at h))
          | inl (x, s) ↦ elim (Bool-cases (p.verify password a.password)) [
            | inr wrong ↦ absurd (
                cc (rw (login, free, check_account, e, s, check_password, password_ok, wrong) at h))
            | inl right ↦
                let same : ok a.id ≡ ok id =
                  rw (login, free, check_account, e, s, check_password, password_ok, right) at h in
                record {
                  account = a;
                  found = e;
                  is_normal = check_status-normal a.status s;
                  verified = right;
                  unlocked = free;
                  named = cc same;
                }
          ]
        ]
      ]
    ]
