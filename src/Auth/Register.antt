-- ===== src/Auth/Register.antt =====
-- `register` of internal/server/auth.go.
use goflix.Base.{
  ◌/◌, Bool, true, false, not, ◌&&◌, ◌||◌, List, [], ◌∷◌, ◌++◌, Option, none, some, Text, text_eq,
  if◌then◌else◌, any,
}
use goflix.Base.Strings.{trim_space, to_lower}
use goflix.Auth.Credentials.{valid_username, valid_email, password_length_ok}
use goflix.Auth.Store.{
  second, same_name, has_id, same_email, prune_sessions, User, AuthStore, Call, Refusal, Answer,
  count_email, count_username, count_users, insert_user, bad_invite, bad_username, bad_password,
  bad_email, no_email_check, email_taken, no_username_check, username_taken, no_hash, no_account,
  refused, answered,
}

-- The UNIQUE constraints of the `users` table
abbrev email_clash : Option Text → User → Bool
email_clash none u = false
email_clash (some e) u = same_email e u

unfoldable pub clashes : User → User → Bool
clashes new u = has_id new.id u || same_name new.username u || email_clash new.email u

-- The checks of the invite code, the name and the length of the password
unfoldable pub form_refusal : Text → Text → Text → Text → Option Refusal
form_refusal required invite name password =
    if not (text_eq required []) && not (text_eq invite required)
    then some bad_invite
    else if not (valid_username name)
    then some bad_username
    else if not (password_length_ok password)
    then some bad_password
    else none

unfoldable pub email_refusal : Call → Text → AuthStore → Option Refusal
email_refusal c email s =
    if text_eq email []
    then none
    else if not (valid_email email)
    then some bad_email
    else if c.faults count_email
    then some no_email_check
    else if any (same_email email) s.users
    then some email_taken
    else none

unfoldable pub name_refusal : Call → Text → AuthStore → Option Refusal
name_refusal c name s =
    if c.faults count_username
    then some no_username_check
    else if any (same_name name) s.users
    then some username_taken
    else none

abbrev pub is_empty : List User → Bool
is_empty [] = true
is_empty (u ∷ users) = false

-- `INSERT INTO users`
unfoldable pub insert_account : Call → User → AuthStore → AuthStore × Answer User
insert_account c u s =
    if c.faults insert_user || any (clashes u) s.users
    then (s, refused no_account)
    else (record s { users = s.users ++ u ∷ [] }, answered u)

abbrev pub new_account : Call → Text → Text → Text → Bool → User
new_account c name email hash first = record {
  id = c.fresh_id;
  username = name;
  email = if text_eq email [] then none else some email;
  salt = c.fresh_salt;
  hash = hash;
  created_at = c.now / second;
  is_admin = first;
}

-- From the hash on, when every check has passed. The first account manages the instance.
unfoldable pub create_account :
    Call → Text → Text → Option Text → AuthStore → AuthStore × Answer User
create_account c name email none s = (s, refused no_hash)
create_account c name email (some hash) s =
    if c.faults count_users
    then (s, refused no_account)
    else insert_account c (new_account c name email hash (is_empty s.users)) (prune_sessions c s)

-- The checks of `register`, in order
unfoldable pub register_refusal : Call → Text → Text → Text → Text → AuthStore → Option Refusal
register_refusal c name password invite email s =
    elim (form_refusal s.invite invite name password) [
      | some r ↦ some r
      | none ↦ elim (email_refusal c email s) [ some r ↦ some r | none ↦ name_refusal c name s ]
    ]

unfoldable pub register : Call → Text → Text → Text → Text → AuthStore → AuthStore × Answer User
register c username password invite email s =
    let name = trim_space username in
    let mail = to_lower (trim_space email) in
    elim (register_refusal c name password invite mail s) [
      | some r ↦ (s, refused r)
      | none ↦ create_account c name mail (c.hashing.bcrypt password) s
    ]
