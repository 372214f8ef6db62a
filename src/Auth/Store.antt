-- ===== src/Auth/Store.antt =====
-- The account store of internal/server/auth.go. A table is the list of its rows in the order of
-- insertion, and each SQL statement of the source is what it says of those rows, with the
-- constraints that the schema of internal/db/db.go declares. Any statement may fail: `faults` tells
-- which do. Times are in nanoseconds, those of a row in seconds.
use goflix.Base.{
  ℕ, ◌*◌, ◌/◌, Bool, false, List, [], ◌∷◌, map, Option, none, some, Text, text_eq, leb,
  if◌then◌else◌, keep,
}
use goflix.Base.Strings.{to_lower}
use goflix.Auth.Credentials.{Hashing}

-- `user`; an e-mail that is not set is NULL.
pub record User : Type 0 where
  pub id : Text
  pub username : Text
  pub email : Option Text
  pub salt : Text
  pub hash : Text
  pub created_at : ℕ
  pub is_admin : Bool

-- A row of `sessions`
pub record Login : Type 0 where
  pub token_hash : Text
  pub user_id : Text
  pub expires_at : ℕ

pub record AuthStore : Type 0 where
  pub users : List User
  pub logins : List Login
  pub invite : Text

-- The statements of the store, and the one of `DeleteUserState`
pub data Statement : Type 0 where
  count_email count_username count_users insert_user find_user update_hash count_admins
        delete_logins delete_user prune_logins find_login extend_login drop_login insert_login
        delete_userdata :
      Statement

-- What one call draws from the world: the clock, random names, the hashes and the database.
pub record Call : Type 0 where
  pub now : ℕ
  pub fresh_id : Text
  pub fresh_salt : Text
  pub hashing : Hashing
  pub faults : Statement → Bool

-- The messages
pub data Refusal : Type 0 where
  bad_invite bad_username bad_password bad_email no_email_check email_taken no_username_check
        username_taken no_hash no_account wrong_login not_found wrong_password no_delete last_admin
        delete_self_here no_change :
      Refusal

pub data Answer {ℓ} (A : Type ℓ) : Type ℓ where
  refused : Refusal → Answer A
  answered : A → Answer A

abbrev pub second : ℕ
second = 1000000000

-- Thirty days
abbrev pub auth_ttl : ℕ
auth_ttl = 2592000 * second

-- `username = ? COLLATE NOCASE`
unfoldable pub same_name : Text → User → Bool
same_name name u = text_eq (to_lower u.username) (to_lower name)

unfoldable pub has_id : Text → User → Bool
has_id id u = text_eq u.id id

abbrev email_is : Text → Option Text → Bool
email_is e none = false
email_is e (some mail) = text_eq mail e

unfoldable pub same_email : Text → User → Bool
same_email e u = email_is e u.email

unfoldable pub find_by : (User → Bool) → List User → Option User
find_by p [] = none
find_by p (u ∷ users) = if p u then some u else find_by p users

unfoldable pub find_login_row : Text → List Login → Option Login
find_login_row hash [] = none
find_login_row hash (l ∷ logins) =
    if text_eq l.token_hash hash then some l else find_login_row hash logins

abbrev pub admins : List User → List User
admins users = keep (λ u. u.is_admin) users

-- `pruneSessionsLocked`
unfoldable pub prune_sessions : Call → AuthStore → AuthStore
prune_sessions c s =
    if c.faults prune_logins
    then s
    else record s { logins = keep (λ l. leb (c.now / second) l.expires_at) s.logins }

-- `UPDATE users SET hash = ? WHERE id = ?`
unfoldable pub set_hash : Text → Text → AuthStore → AuthStore
set_hash id hash s = record s {
  users = map (λ u. if has_id id u then record u { hash = hash } else u) s.users;
}
