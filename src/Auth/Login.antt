-- ===== src/Auth/Login.antt =====
-- Logins and cookies: `login`, `sessionFor` and `logout` of internal/server/auth.go.
use goflix.Base.{
  ◌+◌, ◌*◌, ◌/◌, not, ◌||◌, [], ◌∷◌, ◌++◌, map, Option, none, some, Text, text_eq, ltb,
  if◌then◌else◌, any, keep, is_some,
}
use goflix.Base.Strings.{trim_space}
use goflix.Auth.Credentials.{hash_token, verify_password}
use goflix.Auth.Store.{
  second, auth_ttl, same_name, has_id, find_by, find_login_row, prune_sessions, set_hash, User,
  Login, AuthStore, Call, Answer, find_user, update_hash, find_login, extend_login, drop_login,
  insert_login, wrong_login, refused, answered,
}
use goflix.Auth.Register.{register}

-- A legacy hash of a right password is replaced.
unfoldable pub upgraded : Call → Text → User → AuthStore → AuthStore
upgraded c password u s =
    let verdict = verify_password c.hashing password u.salt u.hash in
    if text_eq verdict.1 [] || c.faults update_hash then s else set_hash u.id verdict.1 s

-- The session that `login` returns is what the handler stores under a new token's hash.
unfoldable pub login_as : Call → Text → Option User → AuthStore → AuthStore × Answer Login
login_as c password none s = (s, refused wrong_login)
login_as c password (some u) s =
    let verdict = verify_password c.hashing password u.salt u.hash in
    if not verdict.0 then (s, refused wrong_login) else (
      prune_sessions c (upgraded c password u s),
      answered
          (record { token_hash = []; user_id = u.id; expires_at = (c.now + auth_ttl) / second }),
    )

unfoldable pub login : Call → Text → Text → AuthStore → AuthStore × Answer Login
login c username password s =
    login_as c password
      (if c.faults find_user then none else find_by (same_name (trim_space username)) s.users) s

-- `INSERT INTO sessions`: the hash is the primary key, and the account must exist. A row that
-- breaks either is refused, and the handlers ignore the error.
unfoldable pub insert_session : Call → Login → AuthStore → AuthStore
insert_session c row s =
    if c.faults insert_login
      || is_some (find_login_row row.token_hash s.logins)
      || not (any (has_id row.user_id) s.users)
    then s
    else record s { logins = s.logins ++ row ∷ [] }

unfoldable pub open_session : Call → Text → AuthStore × Answer Login → AuthStore × Answer Login
open_session c token (s, refused r) = (s, refused r)
open_session c token (s, answered l) =
    let row = record l { token_hash = hash_token c.hashing token } in
    (insert_session c row s, answered row)

unfoldable pub login_of : Call → AuthStore × Answer User → AuthStore × Answer Login
login_of c (s, refused r) = (s, refused r)
login_of c (s, answered u) = (
  s,
  answered (record { token_hash = []; user_id = u.id; expires_at = (c.now + auth_ttl) / second }),
)

-- `authRegisterHandler` behind the CORS gate; the token is `randomHex(32)`.
unfoldable pub handle_register :
    Call → Text → Text → Text → Text → Text → AuthStore → AuthStore × Answer Login
handle_register c token username password invite email s =
    open_session c token (login_of c (register c username password invite email s))

-- `authLoginHandler` behind the CORS gate
unfoldable pub handle_login : Call → Text → Text → Text → AuthStore → AuthStore × Answer Login
handle_login c token username password s = open_session c token (login c username password s)

unfoldable pub drop_token : Call → Text → AuthStore → AuthStore
drop_token c hash s =
    if c.faults drop_login
    then s
    else record s { logins = keep (λ l. not (text_eq l.token_hash hash)) s.logins }

-- `UPDATE sessions SET expires_at = ? WHERE token_hash = ?`
unfoldable pub slide : Call → Text → AuthStore → AuthStore
slide c hash s = if c.faults extend_login then s else record s {
  logins =
      map
        (λ l.
          if text_eq l.token_hash hash
          then record l { expires_at = (c.now + auth_ttl) / second }
          else l)
        s.logins;
}

-- `sessionFor`: the account of a cookie's token.
unfoldable pub session_of : Call → Option Login → AuthStore → AuthStore × Option Text
session_of c none s = (s, none)
session_of c (some l) s =
    if ltb (l.expires_at * second) c.now
    then (drop_token c l.token_hash s, none)
    else (slide c l.token_hash s, some l.user_id)

unfoldable pub session_for : Call → Text → AuthStore → AuthStore × Option Text
session_for c token s =
    session_of c
      (if c.faults find_login then none else find_login_row (hash_token c.hashing token) s.logins) s

unfoldable pub logout : Call → Text → AuthStore → AuthStore
logout c token s = drop_token c (hash_token c.hashing token) s
