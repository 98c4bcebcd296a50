-- ===== src/UserService/Samples.antt =====
-- Passwords kept as they are, a limit of two failures, and an account of each kind.
use data_factory.Base.{
  ◌≡◌, refl, String, false, none, some, List, [], ◌∷◌, ◌=?◌, string_eq, All, inr, arith, leb,
}
use data_factory.Base.Dict.{get}
use data_factory.Base.Result.{ok, err}
use data_factory.UserService.{
  UserStatus, Account, Users, login_locked, user_pending, Passwords, chomp, is_letter, is_digit,
  strong_codes, check_password_strength, find_name, find_id, update_id, fail_count, login, register,
  get_user_or_404, update_account, is_status, approve_user, disable_user, enable_user,
  change_my_password,
}
use data_factory.UserService.Lock.{up, Wrong, after, login-Locks}
use data_factory.UserService.Lifecycle.{
  new_account, register-approve_user-login, change_my_password-login,
}

abbrev passwords : Passwords
passwords = record { verify = λ w h. w =? h; hash = λ w. w }

abbrev account : Account
account = record {
  id = 1;
  username = "ann";
  password = "secret123";
  group_type = 1;
  status = UserStatus.normal;
  reject_reason = none;
}

abbrev users : Users
users = record { accounts = account ∷ []; user_menus = []; login_fails = [] }

guessed : All (λ w. Wrong passwords "ann" users.accounts w) ("a" ∷ "b" ∷ [])
unfolding find_name
guessed = (inr (account, refl, refl, refl), (inr (account, refl, refl, refl), tt))

login-Locks_example :
    ((password : String)
      → login passwords up 2 "ann" password (after passwords 2 "ann" ("a" ∷ "b" ∷ []) users)
        ≡ (err login_locked, after passwords 2 "ann" ("a" ∷ "b" ∷ []) users))
    × ((after passwords 2 "ann" ("a" ∷ "b" ∷ []) users).accounts ≡ users.accounts)
    × ((k : String)
        → ("ann" =? k) ≡ false
        → fail_count up k (after passwords 2 "ann" ("a" ∷ "b" ∷ []) users) ≡ fail_count up k users)
login-Locks_example = login-Locks passwords 2 "ann" ("a" ∷ "b" ∷ []) users guessed (omega arith)

abbrev registered : Users
registered = record users { accounts = account ∷ new_account passwords 2 "bob" "secret456" 2 ∷ [] }

bob_registered : register passwords 2 "bob" "secret456" 2 users ≡ ok registered
unfolding register check_password_strength chomp is_letter is_digit strong_codes find_name
bob_registered = refl

unlocked : leb 2 (fail_count up "bob" users) ≡ false
unfolding fail_count get
unlocked = refl

register-approve_user-login_example :
    ((guess : String)
      → login passwords up 2 "bob" guess registered ≡ (err user_pending, registered))
    × ((known menu_codes : List String) (w : Users)
        → approve_user known 2 menu_codes registered ≡ ok w
        → (login passwords up 2 "bob" "secret456" w).0 ≡ ok 2)
register-approve_user-login_example =
    register-approve_user-login passwords up 2 2 "bob" "secret456" 2 users registered refl unlocked
      bob_registered

abbrev changed : Users
changed = record users { accounts = record account { password = "better789" } ∷ [] }

ann_changed : change_my_password passwords 1 "secret123" "better789" users ≡ ok changed
unfolding change_my_password find_id check_password_strength chomp is_letter is_digit strong_codes
    update_account update_id
ann_changed = refl

ann_found : find_name "ann" users.accounts ≡ some account
unfolding find_name
ann_found = refl

ann_unlocked : leb 2 (fail_count up "ann" users) ≡ false
unfolding fail_count get
ann_unlocked = refl

change_my_password-login_example : (login passwords up 2 "ann" "better789" changed).0 ≡ ok 1
change_my_password-login_example =
    change_my_password-login passwords up 2 1 "ann" "secret123" "better789" users changed account
      refl ann_found refl refl ann_unlocked ann_changed

abbrev with_status : UserStatus → Users
with_status s = record users {
  accounts = record account { status = s; reject_reason = some "no" } ∷ [];
}

-- An account that was rejected is normal after it is disabled and enabled.
rejected_account :
    disable_user 9 1 (with_status UserStatus.rejected) ≡ ok (with_status UserStatus.disabled)
unfolding disable_user get_user_or_404 find_id is_status update_account update_id
rejected_account = refl

rejected_then_normal :
    enable_user 1 (with_status UserStatus.disabled) ≡ ok (with_status UserStatus.normal)
unfolding enable_user get_user_or_404 find_id is_status update_account update_id
rejected_then_normal = refl
