-- ===== src/UserService.antt =====
-- backend/app/services/user_service.py: accounts, their approval and their login. Tokens, notices, the
-- audit and the personal settings are left out. Hashing and verifying a password are parameters.
pub mod Login
pub mod Lock
pub mod Lifecycle
mod Samples
use data_factory.Base.{
  ℕ, zero, suc, ◌+◌, String, Bool, true, false, not, Option, none, some, List, [], ◌∷◌, ◌++◌, map,
  if◌then◌else◌, ◌==◌, ◌=?◌, string_eq, nat_eq, leb, ltb, keep, length, any, all, is_empty,
}
use data_factory.Base.Text.{codes}
use data_factory.Base.Count.{contains}
use data_factory.Base.Dict.{Dict, get, put}
use data_factory.Base.Result.{Result, ok, err, ◌>>=◌, raise_if, ◌>>◌}

-- df_user.status
pub data UserStatus : Type 0 where
  pending normal disabled rejected : UserStatus

-- df_user
pub record Account : Type 0 where
  pub id : ℕ
  pub username : String
  pub password : String
  pub group_type : ℕ
  pub status : UserStatus
  pub reject_reason : Option String

-- The table of users, the menu codes of each user, and the counters of failed logins in Redis.
pub record Users : Type 0 where
  pub accounts : List Account
  pub user_menus : Dict ℕ (List String)
  pub login_fails : Dict String ℕ

-- `BizException`, by its code.
pub data UserError : Type 0 where
  login_locked user_disabled user_pending user_rejected password_wrong password_too_weak
        user_not_found username_taken user_param_invalid user_forbidden old_password_wrong :
      UserError

-- `verify_password` and `get_password_hash`
pub record Passwords : Type 0 where
  pub verify : (password hash : String) → Bool
  pub hash : String → String

-- Which of the calls of Redis in a login go through.
pub record Redis : Type 0 where
  pub gets : Bool
  pub counts : Bool
  pub deletes : Bool

-- A final line feed, which `$` passes over.
pub chomp : List ℕ → List ℕ
chomp [] = []
chomp (c ∷ []) = if c == 10 then [] else c ∷ []
chomp (c ∷ d ∷ cs) = c ∷ chomp (d ∷ cs)

pub is_letter : ℕ → Bool
is_letter c = if leb b'a' c then leb c b'z' else if leb b'A' c then leb c b'Z' else false

pub is_digit : ℕ → Bool
is_digit c = if leb b'0' c then leb c b'9' else false

-- `_PASSWORD_RULE`, with the digits of ASCII.
pub strong_codes : List ℕ → Bool
unfolding is_letter is_digit
strong_codes cs =
    if any (λ c. c == 10) cs
    then false
    else if any is_letter cs
    then (if any is_digit cs then leb 8 (length cs) else false)
    else false

-- `check_password_strength`
pub check_password_strength : String → Result UserError (Unit {0})
unfolding chomp strong_codes
check_password_strength password =
    raise_if (not (strong_codes (chomp (codes password)))) password_too_weak

pub find_name : String → List Account → Option Account
find_name name [] = none
find_name name (a ∷ as') =
    let rest = find_name name as' in if a.username =? name then some a else rest

pub find_id : ℕ → List Account → Option Account
find_id id [] = none
find_id id (a ∷ as') = let rest = find_id id as' in if a.id == id then some a else rest

pub update_id : ℕ → (Account → Account) → List Account → List Account
update_id id f [] = []
update_id id f (a ∷ as') = (if a.id == id then f a else a) ∷ update_id id f as'

-- `int(fail_count_raw or 0)`, and 0 where Redis does not answer.
pub fail_count : Redis → String → Users → ℕ
fail_count redis name u =
    if redis.gets then elim (get name u.login_fails) [ none ↦ 0 | some n ↦ n ] else 0

-- The refusals for an account's status.
pub check_status : UserStatus → Result UserError (Unit {0})
check_status UserStatus.disabled = err user_disabled
check_status UserStatus.pending = err user_pending
check_status UserStatus.rejected = err user_rejected
check_status UserStatus.normal = ok tt

pub password_ok : Passwords → String → Option Account → Bool
password_ok p password none = false
password_ok p password (some a) = p.verify password a.password

-- A wrong password is counted: the number of failures by then, and the counters.
pub count_failure : Redis → String → ℕ → Users → ℕ × Users
count_failure redis name count u =
    if redis.counts
    then (let n = suc (elim (get name u.login_fails) [ none ↦ 0 | some m ↦ m ]) in
        (n, record u { login_fails = put name n u.login_fails }))
    else (count, u)

-- `redis_client.delete(fail_key)`
pub clear_failures : Redis → String → Users → Users
clear_failures redis name u =
    if redis.deletes
    then record u { login_fails = keep (λ e. not (e.0 =? name)) u.login_fails }
    else u

-- Step 3 and 4: the password.
pub check_password :
    Passwords
    → Redis
    → (max_times : ℕ) → String
    → String
    → ℕ
    → Option Account
    → Users
    → Result UserError ℕ × Users
unfolding password_ok count_failure clear_failures
check_password p redis max_times name password count none u =
    let (n, u') = count_failure redis name count u in
    (err (if leb max_times n then login_locked else password_wrong), u')
check_password p redis max_times name password count (some a) u =
    if password_ok p password (some a)
    then (ok a.id, clear_failures redis name u)
    else (let (n, u') = count_failure redis name count u in
        (err (if leb max_times n then login_locked else password_wrong), u'))

-- Step 2: the account and its status.
pub check_account :
    Passwords → Redis → (max_times : ℕ) → String → String → ℕ → Users → Result UserError ℕ × Users
unfolding find_name check_status check_password
check_account p redis max_times name password count u = elim (find_name name u.accounts) [
  | none ↦ check_password p redis max_times name password count none u
  | some a ↦ elim (check_status a.status) [
    | err e ↦ (err e, u)
    | ok _ ↦ check_password p redis max_times name password count (some a) u
  ]
]

-- `login`: the id of the account.
pub login :
    Passwords → Redis → (max_times : ℕ) → String → String → Users → Result UserError ℕ × Users
unfolding fail_count check_account
login p redis max_times name password u =
    let count = fail_count redis name u in
    if leb max_times count
    then (err login_locked, u)
    else check_account p redis max_times name password count u

-- `register`, with the id that the database gives.
pub register :
    Passwords → (new_id : ℕ) → String → String → (group_type : ℕ) → Users → Result UserError Users
unfolding check_password_strength find_name
register p new_id name password group_type u = do
  raise_if (not (if group_type == 1 then true else group_type == 2)) user_param_invalid
  check_password_strength password
  raise_if (elim (find_name name u.accounts) [ none ↦ false | some _ ↦ true ]) username_taken
  ok (record u {
    accounts =
        u.accounts
        ++ record {
          id = new_id;
          username = name;
          password = p.hash password;
          group_type = group_type;
          status = UserStatus.pending;
          reject_reason = none;
        }
          ∷ [];
  })

-- `_get_user_or_404`
pub get_user_or_404 : ℕ → Users → Result UserError Account
unfolding find_id
get_user_or_404 id u = elim (find_id id u.accounts) [ none ↦ err user_not_found | some a ↦ ok a ]

pub update_account : ℕ → (Account → Account) → Users → Users
unfolding update_id
update_account id f u = record u { accounts = update_id id f u.accounts }

pub is_status : UserStatus → UserStatus → Bool
is_status UserStatus.pending UserStatus.pending = true
is_status UserStatus.normal UserStatus.normal = true
is_status UserStatus.disabled UserStatus.disabled = true
is_status UserStatus.rejected UserStatus.rejected = true
is_status _ _ = false

-- `_replace_user_menus`: `known` are the codes of the menus. The codes are stored as they are given, without
-- repetition and order.
pub replace_user_menus : (known : List String) → ℕ → List String → Users → Result UserError Users
replace_user_menus known id menu_codes u = do
  raise_if (not (all (λ c. contains c known) menu_codes)) user_param_invalid
  ok (record u { user_menus = put id menu_codes u.user_menus })

-- `approve_user`
pub approve_user : (known : List String) → ℕ → List String → Users → Result UserError Users
unfolding get_user_or_404 is_status replace_user_menus update_account
approve_user known id menu_codes u = do
  target ← get_user_or_404 id u
  raise_if (not (is_status UserStatus.pending target.status)) user_param_invalid
  v ← replace_user_menus known id menu_codes u
  ok (update_account id (λ a. record a { status = UserStatus.normal; reject_reason = none }) v)

-- `reject_user`
pub reject_user : ℕ → String → Users → Result UserError Users
unfolding get_user_or_404 is_status update_account
reject_user id reason u = do
  target ← get_user_or_404 id u
  raise_if (not (is_status UserStatus.pending target.status)) user_param_invalid
  ok (
      update_account id
        (λ a. record a { status = UserStatus.rejected; reject_reason = some reason }) u)

-- `update_user_permissions`
pub update_user_permissions :
    (known : List String) → ℕ → List String → Users → Result UserError Users
unfolding get_user_or_404 replace_user_menus
update_user_permissions known id menu_codes u = do
  target ← get_user_or_404 id u
  replace_user_menus known id menu_codes u

-- `disable_user`
pub disable_user : (operator : ℕ) → ℕ → Users → Result UserError Users
unfolding get_user_or_404 is_status update_account
disable_user operator id u = do
  target ← get_user_or_404 id u
  raise_if (target.group_type == 99) user_forbidden
  raise_if (target.id == operator) user_forbidden
  raise_if (is_status UserStatus.disabled target.status) user_param_invalid
  ok (update_account id (λ a. record a { status = UserStatus.disabled }) u)

-- `enable_user`
pub enable_user : ℕ → Users → Result UserError Users
unfolding get_user_or_404 is_status update_account
enable_user id u = do
  target ← get_user_or_404 id u
  raise_if (not (is_status UserStatus.disabled target.status)) user_param_invalid
  ok (update_account id (λ a. record a { status = UserStatus.normal }) u)

-- `reset_password`, to a generated password.
pub reset_password : Passwords → ℕ → (temp_password : String) → Users → Result UserError Users
unfolding get_user_or_404 update_account
reset_password p id temp_password u = do
  target ← get_user_or_404 id u
  ok (update_account id (λ a. record a { password = p.hash temp_password }) u)

-- `change_my_password`
pub change_my_password : Passwords → ℕ → String → String → Users → Result UserError Users
unfolding find_id check_password_strength update_account
change_my_password p id old_password new_password u = do
  raise_if
      (elim (find_id id u.accounts) [
        | none ↦ true
        | some a ↦ not (p.verify old_password a.password)
      ])
      old_password_wrong
  check_password_strength new_password
  ok (update_account id (λ a. record a { password = p.hash new_password }) u)
