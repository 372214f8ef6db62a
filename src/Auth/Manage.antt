-- ===== src/Auth/Manage.antt =====
-- Deleting accounts, forced sign-outs and new passwords, of internal/server/auth.go.
use goflix.Base.{not, ◌&&◌, Option, none, some, Text, text_eq, leb, if◌then◌else◌, keep, length}
use goflix.Auth.Credentials.{verify_password, password_length_ok}
use goflix.Auth.Store.{
  has_id, find_by, admins, set_hash, User, AuthStore, Call, Refusal, find_user, update_hash,
  count_admins, delete_logins, delete_user, bad_password, no_hash, not_found, wrong_password,
  no_delete, last_admin, delete_self_here, no_change,
}

unfoldable pub logout_all_sessions : Call → Text → AuthStore → AuthStore
logout_all_sessions c id s =
    if c.faults delete_logins
    then s
    else record s { logins = keep (λ l. not (text_eq l.user_id id)) s.logins }

-- `deleteUserLocked`
unfoldable pub delete_user_locked : Call → Text → AuthStore → AuthStore × Option Refusal
delete_user_locked c id s =
    if c.faults delete_logins
    then (s, some no_delete)
    else if c.faults delete_user
    then (logout_all_sessions c id s, some no_delete)
    else (
      record (logout_all_sessions c id s) { users = keep (λ u. not (has_id id u)) s.users },
      none,
    )

-- The rule on the last admin, which two handlers share
unfoldable pub delete_checked : Call → User → Text → AuthStore → AuthStore × Option Refusal
delete_checked c u id s =
    if u.is_admin && c.faults count_admins
    then (s, some no_delete)
    else if u.is_admin && leb (length (admins s.users)) 1
    then (s, some last_admin)
    else delete_user_locked c id s

unfoldable pub find_account : Call → Text → AuthStore → Option User
find_account c id s = if c.faults find_user then none else find_by (has_id id) s.users

-- `deleteAccountSelf`
unfoldable pub delete_account_self : Call → Text → Text → AuthStore → AuthStore × Option Refusal
delete_account_self c id password s = elim (find_account c id s) [
  | none ↦ (s, some not_found)
  | some u ↦
      if not (verify_password c.hashing password u.salt u.hash).0
      then (s, some wrong_password)
      else delete_checked c u id s
]

-- `deleteAccount`
unfoldable pub delete_account : Call → Text → Text → AuthStore → AuthStore × Option Refusal
delete_account c requester target s =
    if text_eq requester target
    then (s, some delete_self_here)
    else elim (find_account c target s) [
      | none ↦ (s, some not_found)
      | some u ↦ delete_checked c u target s
    ]

-- `changePassword`
unfoldable pub replace_hash : Call → Text → Option Text → AuthStore → AuthStore × Option Refusal
replace_hash c id none s = (s, some no_hash)
replace_hash c id (some hash) s =
    if c.faults update_hash then (s, some no_change) else (set_hash id hash s, none)

unfoldable pub change_password : Call → Text → Text → Text → AuthStore → AuthStore × Option Refusal
change_password c id current next s =
    if not (password_length_ok next) then (s, some bad_password) else elim (find_account c id s) [
      | none ↦ (s, some not_found)
      | some u ↦
          if not (verify_password c.hashing current u.salt u.hash).0
          then (s, some wrong_password)
          else replace_hash c id (c.hashing.bcrypt next) s
    ]
