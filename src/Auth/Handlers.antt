-- ===== src/Auth/Handlers.antt =====
-- The handlers of internal/server/auth.go for signed-in users and admins, behind the method gate,
-- and the identity that the middleware attaches. A body that does not decode is `none`.
use goflix.Base.{
  Bool, false, not, ◌&&◌, [], Option, none, some, Text, text_eq, text_key, if◌then◌else◌,
}
use goflix.Base.Map.{Map, erase}
use goflix.Auth.Store.{User, AuthStore, Call, Refusal, delete_userdata}
use goflix.Auth.Login.{session_for}
use goflix.Auth.Manage.{
  find_account, delete_account_self, delete_account, change_password, logout_all_sessions,
}

-- The answers, with the message of a refused request
pub data Reply : Type 0 where
  done unauthorized forbidden bad_request : Reply
  failed : Refusal → Reply

-- The accounts, and the rows of the `userdata` table; `none` where the server has no store of synced
-- data (`UserData` or its database is nil).
pub record Site : Type 0 where
  pub accounts : AuthStore
  pub userdata : Option (Map Text Text)

abbrev name_of_row : Option User → Text
name_of_row none = []
name_of_row (some u) = u.username

-- `usernameByID`
unfoldable pub username_by_id : Call → Text → AuthStore → Text
username_by_id c id s = name_of_row (find_account c id s)

abbrev pub admin_row : Option User → Bool
admin_row none = false
admin_row (some u) = u.is_admin

-- `userIsAdmin`
unfoldable pub user_is_admin : Call → Text → AuthStore → Bool
user_is_admin c id s = admin_row (find_account c id s)

-- `authorize`; a cookie that is not sent is `none`.
unfoldable pub authorize : Call → Option Text → AuthStore → AuthStore × Option Text
authorize c none s = (s, none)
authorize c (some token) s = if text_eq token [] then (s, none) else session_for c token s

-- What `middleware` attaches: the user's id, or "" for one whose account is gone.
unfoldable pub identity_of : Call → AuthStore × Option Text → AuthStore × Text
identity_of c (s, none) = (s, [])
identity_of c (s, some id) = (s, if text_eq (username_by_id c id s) [] then [] else id)

unfoldable pub middleware : Call → Option Text → AuthStore → AuthStore × Text
middleware c cookie s = identity_of c (authorize c cookie s)

unfoldable pub reply_of : Site → AuthStore × Option Refusal → Site × Reply
reply_of w (s, none) = (record w { accounts = s }, done)
reply_of w (s, some r) = (record w { accounts = s }, failed r)

-- `DeleteUserState`, where there is a store; a statement that fails is logged only.
unfoldable pub delete_user_state : Call → Text → Option (Map Text Text) → Option (Map Text Text)
delete_user_state c id none = none
delete_user_state c id (some rows) =
    if c.faults delete_userdata then some rows else some (erase id rows)

-- The end of a handler that deletes an account: the synced data goes only behind a deletion that
-- succeeded.
unfoldable pub cleared : Call → Text → Site × Reply → Site × Reply
cleared c id (w, done) = (record w { userdata = delete_user_state c id w.userdata }, done)
cleared c id (w, unauthorized) = (w, unauthorized)
cleared c id (w, forbidden) = (w, forbidden)
cleared c id (w, bad_request) = (w, bad_request)
cleared c id (w, failed r) = (w, failed r)

-- `authPasswordHandler`
unfoldable pub auth_password : Call → Text → Option (Text × Text) → Site → Site × Reply
auth_password c user body w = if text_eq user [] then (w, unauthorized) else elim body [
  | none ↦ (w, bad_request)
  | some (current, next) ↦ reply_of w (change_password c user current next w.accounts)
]

-- `authDeleteHandler`
unfoldable pub auth_delete : Call → Text → Option Text → Site → Site × Reply
auth_delete c user body w = if text_eq user [] then (w, unauthorized) else elim body [
  | none ↦ (w, bad_request)
  | some current ↦ cleared c user (reply_of w (delete_account_self c user current w.accounts))
]

-- `adminGuard`
unfoldable pub admin_guard : Call → Text → AuthStore → Bool
admin_guard c user s = not (text_eq user []) && user_is_admin c user s

-- `adminUserLogout`
unfoldable pub admin_user_logout : Call → Text → Text → Site → Site × Reply
admin_user_logout c user target w =
    if not (admin_guard c user w.accounts)
    then (w, forbidden)
    else if text_eq target []
    then (w, bad_request)
    else (record w { accounts = logout_all_sessions c target w.accounts }, done)

-- `adminUserDelete`
unfoldable pub admin_user_delete : Call → Text → Text → Site → Site × Reply
admin_user_delete c user target w =
    if not (admin_guard c user w.accounts)
    then (w, forbidden)
    else if text_eq target []
    then (w, bad_request)
    else cleared c target (reply_of w (delete_account c user target w.accounts))
