-- ===== src/UserService/Lifecycle.antt =====
-- From the registration of an account over its approval to its login, and the change of a password.
use data_factory.Base.{
  ℕ, ◌≡◌, refl, ap, ◌∙◌, String, Bool, true, false, not, none, some, List, [], ◌∷◌, ◌++◌,
  if◌then◌else◌, ◌==◌, ◌=?◌, =?_refl, string_eq, nat_eq, leb, all, Bool-cases, Option-cases, inl,
  inr, arith,
}
use mathlib.Core.Option.{some-injective}
use data_factory.Base.Count.{contains}
use data_factory.Base.Dict.{put}
use data_factory.Base.Result.{Result, ok, err, ◌>>=◌, raise_if, ◌>>◌}
use data_factory.UserService.{
  UserStatus, Account, Users, UserError, user_param_invalid, user_pending, old_password_wrong,
  Passwords, Redis, find_name, find_id, update_id, fail_count, check_status, check_account, login,
  check_password_strength, register, get_user_or_404, update_account, is_status, replace_user_menus,
  approve_user, change_my_password,
}
use data_factory.UserService.Login.{login-Admits}

raise_if-ok :
    {A : Type 0} (c : Bool) (x : UserError) (k : Result UserError A) {a : A}
    → (raise_if c x >> k) ≡ ok a
    → (c ≡ false) × (k ≡ ok a)
raise_if-ok true x k h = absurd (cc h)
raise_if-ok false x k h = (refl, h)

>>=-ok :
    {A B : Type 0} (m : Result UserError A) (k : A → Result UserError B) {b : B}
    → (m >>= k) ≡ ok b
    → (a : A) × (m ≡ ok a) × (k a ≡ ok b)
>>=-ok (ok a) k h = (a, refl, h)
>>=-ok (err x) k h = absurd (cc h)

-- An update of one account that keeps its name is found under the name.
find_name-update_id :
    (name : String) (id : ℕ) (f : Account → Account) (xs : List Account) (a : Account)
    → ((x : Account) → (f x).username ≡ x.username)
    → find_name name xs ≡ some a
    → a.id ≡ id
    → find_name name (update_id id f xs) ≡ some (f a)
unfolding find_name update_id
find_name-update_id name id f [] a keeps h e = absurd (cc h)
find_name-update_id name id f (x ∷ xs) a keeps h e = elim (Bool-cases (x.username =? name)) [
  | inl hit ↦
      let same : x ≡ a = some-injective _ _ (rw hit at h) in
      let here : (x.id == id) ≡ true = ground (arith, ap (λ (y : Account). y.id) same, e) in
      let still : ((f x).username =? name) ≡ true =
        ap (λ (n : String). n =? name) (keeps x) ∙ hit in
      rw (here, still) (ap (λ (y : Account). some (f y)) same)
  | inr miss ↦
      let rest = find_name-update_id name id f xs a keeps (rw miss at h) e in
      let still : ((if x.id == id then f x else x).username =? name) ≡ false =
        elim (Bool-cases (x.id == id)) [
          | inl here ↦ rw here (ap (λ (n : String). n =? name) (keeps x) ∙ miss)
          | inr other ↦ rw other miss
        ] in
      rw still rest
]

find_name-append :
    (name : String) (xs : List Account) (a : Account)
    → find_name name xs ≡ none
    → a.username ≡ name
    → find_name name (xs ++ a ∷ []) ≡ some a
unfolding find_name
find_name-append name [] a h e = rw (e, =?_refl name) refl
find_name-append name (x ∷ xs) a h e = elim (Bool-cases (x.username =? name)) [
  | inl hit ↦ absurd (cc (rw hit at h))
  | inr miss ↦ rw miss (find_name-append name xs a (rw miss at h) e)
]

abbrev pub new_account : Passwords → ℕ → String → String → ℕ → Account
new_account p new_id name password group_type = record {
  id = new_id;
  username = name;
  password = p.hash password;
  group_type = group_type;
  status = UserStatus.pending;
  reject_reason = none;
}

register-adds :
    (p : Passwords) (new_id : ℕ) (name password : String) (group_type : ℕ) (u v : Users)
    → register p new_id name password group_type u ≡ ok v
    → (find_name name v.accounts ≡ some (new_account p new_id name password group_type))
      × (v.login_fails ≡ u.login_fails)
unfolding register
register-adds p new_id name password group_type u v h =
    let (_, h1) =
      raise_if-ok (not (if group_type == 1 then true else group_type == 2)) user_param_invalid _
        h in
    let (_, _, h2) = >>=-ok (check_password_strength password) _ h1 in
    elim (Option-cases (find_name name u.accounts)) [
      | inr (a, e) ↦ absurd (cc (rw e at h2))
      | inl e ↦
          let added : record u {
            accounts = u.accounts ++ new_account p new_id name password group_type ∷ [];
          }
              ≡ v =
            cc (rw e at h2) in
          rw (← added) (
            find_name-append name u.accounts (new_account p new_id name password group_type) e refl,
            refl,
          )
    ]

approve_user-normal :
    (known : List String) (id : ℕ) (menu_codes : List String) (u v : Users)
    → approve_user known id menu_codes u ≡ ok v
    → (v.accounts
        ≡ update_id id
            (λ a. record a { status = UserStatus.normal; reject_reason = none })
            u.accounts)
      × (v.login_fails ≡ u.login_fails)
unfolding approve_user replace_user_menus update_account
approve_user-normal known id menu_codes u v h =
    let (target, _, h1) = >>=-ok (get_user_or_404 id u) _ h in
    let (_, h2) =
      raise_if-ok (not (is_status UserStatus.pending target.status)) user_param_invalid _ h1 in
    let (w, e, h3) = >>=-ok (replace_user_menus known id menu_codes u) _ h2 in
    let (_, e1) =
      raise_if-ok (not (all (λ c. contains c known) menu_codes)) user_param_invalid _ e in
    let done : update_account id
          (λ a. record a { status = UserStatus.normal; reject_reason = none }) w
        ≡ v =
      cc h3 in
    let menus : record u { user_menus = put id menu_codes u.user_menus } ≡ w = cc e1 in
    rw (← done, ← menus) (refl, refl)

same_fails :
    (redis : Redis) (name : String) (u v : Users)
    → v.login_fails ≡ u.login_fails
    → fail_count redis name v ≡ fail_count redis name u
unfolding fail_count
same_fails redis name u v e = rw e refl

-- A registered account is refused as pending, whatever the password, until it is approved; then its
-- password lets it in. Verifying accepts the password with its own hash, and the name is not locked.
pub register-approve_user-login :
    (p : Passwords) (redis : Redis) (max_times new_id : ℕ) (name password : String) (group_type : ℕ)
    (u v : Users)
    → p.verify password (p.hash password) ≡ true
    → leb max_times (fail_count redis name u) ≡ false
    → register p new_id name password group_type u ≡ ok v
    → ((guess : String) → login p redis max_times name guess v ≡ (err user_pending, v))
      × ((known menu_codes : List String) (w : Users)
          → approve_user known new_id menu_codes v ≡ ok w
          → (login p redis max_times name password w).0 ≡ ok new_id)
unfolding login check_account check_status
register-approve_user-login p redis max_times new_id name password group_type u v sound free h =
    let a = new_account p new_id name password group_type in
    let (found, fails) = register-adds p new_id name password group_type u v h in
    let open_v : leb max_times (fail_count redis name v) ≡ false =
      rw (same_fails redis name u v fails) free in
    (
      λ guess. rw (login, open_v, check_account, found, check_status) refl,
      λ known menu_codes w granted.
          let (accounts, kept) = approve_user-normal known new_id menu_codes v w granted in
          (login-Admits p redis max_times name password w new_id).1 (record {
            account = record a { status = UserStatus.normal; reject_reason = none };
            found =
                ap (find_name name) accounts
                ∙ find_name-update_id name new_id _ v.accounts a (λ x. refl) found refl;
            is_normal = refl;
            verified = sound;
            unlocked = rw (same_fails redis name v w kept) open_v;
            named = refl;
          }),
    )

-- After a change of a password, the new password lets a normal account in whose name is not locked.
-- Verifying accepts the new password with its own hash.
pub change_my_password-login :
    (p : Passwords) (redis : Redis) (max_times id : ℕ) (name old_password new_password : String)
    (u v : Users) (a : Account)
    → p.verify new_password (p.hash new_password) ≡ true
    → find_name name u.accounts ≡ some a
    → a.id ≡ id
    → a.status ≡ UserStatus.normal
    → leb max_times (fail_count redis name u) ≡ false
    → change_my_password p id old_password new_password u ≡ ok v
    → (login p redis max_times name new_password v).0 ≡ ok id
unfolding change_my_password update_account fail_count
change_my_password-login p redis max_times id name old_password new_password u v a sound found same
      is_normal free h =
    let (_, h1) =
      raise_if-ok
        (elim (find_id id u.accounts) [
          | none ↦ true
          | some x ↦ not (p.verify old_password x.password)
        ])
        old_password_wrong _ h in
    let (_, _, h2) = >>=-ok (check_password_strength new_password) _ h1 in
    let done : update_account id (λ x. record x { password = p.hash new_password }) u ≡ v = cc h2 in
    rw (← done) (
      (login-Admits p redis max_times name new_password _ id).1 (record {
        account = record a { password = p.hash new_password };
        found = find_name-update_id name id _ u.accounts a (λ x. refl) found same;
        is_normal = is_normal;
        verified = sound;
        unlocked = free;
        named = same;
      }))
