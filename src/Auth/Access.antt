-- ===== src/Auth/Access.antt =====
-- What a cookie gives access to, and for how long.
use goflix.Base.{
  ◌+◌, ◌*◌, ◌/◌, ◌≤◌, Bool, true, false, not, ◌||◌, List, [], ◌∷◌, ◌++◌, none, some, Text, text_eq,
  text_eq_iff, any, keep, ◌≡◌, refl, inl, inr, arith, Bool-cases, ◌∙◌, ap,
}
use goflix.Base.Strings.{trim_space}
use goflix.Auth.Credentials.{hash_token, verify_password}
use goflix.Auth.Store.{
  second, auth_ttl, same_name, has_id, find_by, find_login_row, prune_sessions, set_hash, User,
  Login, AuthStore, Call, find_user, update_hash, prune_logins, find_login, drop_login,
  insert_login,
}
use goflix.Auth.Login.{
  login, login_as, upgraded, insert_session, open_session, handle_login, drop_token, session_of,
  session_for, logout,
}
use goflix.Auth.Rows.{any-map}

find_login_row-none :
    (h : Text) (p : Login → Bool) (logins : List Login)
    → find_login_row h logins ≡ none
    → find_login_row h (keep p logins) ≡ none
unfolding find_login_row
find_login_row-none h p [] e = refl
find_login_row-none h p (l ∷ logins) e = ground (arith, e, find_login_row-none h p logins)

find_login_row-snoc :
    (h : Text) (row : Login) (logins : List Login)
    → find_login_row h logins ≡ none
    → row.token_hash ≡ h
    → find_login_row h (logins ++ row ∷ []) ≡ some row
unfolding find_login_row
find_login_row-snoc h row [] e same = rw ((text_eq_iff row.token_hash h).1 same) refl
find_login_row-snoc h row (l ∷ logins) e same =
    ground (arith, e, find_login_row-snoc h row logins (ground (arith, e)) same)

find_login_row-drop :
    (h : Text) (logins : List Login)
    → find_login_row h (keep (λ l. not (text_eq l.token_hash h)) logins) ≡ none
unfolding find_login_row
find_login_row-drop h [] = refl
find_login_row-drop h (l ∷ logins) = ground (arith, find_login_row-drop h logins)

find_login_row-drop_other :
    (g h : Text) (logins : List Login)
    → text_eq h g ≡ false
    → find_login_row g (keep (λ l. not (text_eq l.token_hash h)) logins) ≡ find_login_row g logins
unfolding find_login_row
find_login_row-drop_other g h [] e = refl
find_login_row-drop_other g h (l ∷ logins) e = ground (
  arith,
  e,
  text_eq_iff l.token_hash h,
  text_eq_iff l.token_hash g,
  text_eq_iff h g,
  find_login_row-drop_other g h logins e,
)

find_by-any :
    (p : User → Bool) (users : List User) (u : User)
    → find_by p users ≡ some u
    → any (has_id u.id) users ≡ true
unfolding find_by has_id
find_by-any p [] u e = ground (arith, e)
find_by-any p (v ∷ users) u e = elim (Bool-cases (p v)) [
  | inl hit ↦ ground (arith, hit, e, text_eq_iff v.id u.id)
  | inr miss ↦ ground (arith, find_by-any p users u (ground (arith, miss, e)))
]

-- What `sessionFor` answers for a stored row
session_for_stored :
    (c : Call) (token : Text) (s : AuthStore) (l : Login)
    → c.faults find_login ≡ false
    → find_login_row (hash_token c.hashing token) s.logins ≡ some l
    → c.now ≤ l.expires_at * second
    → (session_for c token s).1 ≡ some l.user_id
unfolding session_for session_of
session_for_stored c token s l works found live = rw (works, found) (ground (arith, live))

-- Signing out ends the session of that cookie at once, at whatever time it is looked up, and the session of every other
-- cookie stays as it was, if the database carries the deletion out.
pub session_for-logout :
    (c later : Call) (token other : Text) (s : AuthStore)
    → c.faults drop_login ≡ false
    → hash_token later.hashing token ≡ hash_token c.hashing token
    → text_eq (hash_token c.hashing token) other ≡ false
    → ((session_for later token (logout c token s)).1 ≡ none)
      × (find_login_row other (logout c token s).logins ≡ find_login_row other s.logins)
unfolding session_for logout drop_token
session_for-logout c later token other s works same apart = (
  rw (works, same, find_login_row-drop (hash_token c.hashing token) s.logins)
      (elim (Bool-cases (later.faults find_login)) [
        | inl broken ↦ rw broken (unfold session_of in refl)
        | inr fine ↦ rw fine (unfold session_of in refl)
      ]),
  rw works (find_login_row-drop_other other (hash_token c.hashing token) s.logins apart),
)

prune_logins-none :
    (h : Text) (c : Call) (s : AuthStore)
    → find_login_row h s.logins ≡ none
    → find_login_row h (prune_sessions c s).logins ≡ none
unfolding prune_sessions
prune_logins-none h c s e = elim (Bool-cases (c.faults prune_logins)) [
  | inl broken ↦ rw broken e
  | inr works ↦ rw works (find_login_row-none h _ s.logins e)
]

prune_users : (c : Call) (s : AuthStore) → (prune_sessions c s).users ≡ s.users
unfolding prune_sessions
prune_users c s = ground arith

set_hash-has_id :
    (k id hash : Text) (s : AuthStore)
    → any (has_id k) (set_hash id hash s).users ≡ any (has_id k) s.users
unfolding set_hash has_id
set_hash-has_id k id hash s = any-map (has_id k) _ s.users (λ u. ground arith)

upgraded-has_id :
    (k : Text) (c : Call) (password : Text) (u : User) (s : AuthStore)
    → any (has_id k) (upgraded c password u s).users ≡ any (has_id k) s.users
unfolding upgraded
upgraded-has_id k c password u s =
    elim (Bool-cases
      (text_eq (verify_password c.hashing password u.salt u.hash).1 [] || c.faults update_hash)) [
        | inl same ↦ rw same refl
        | inr upgrade ↦ rw upgrade (set_hash-has_id k u.id _ s)
      ]

upgraded-logins :
    (c : Call) (password : Text) (u : User) (s : AuthStore)
    → (upgraded c password u s).logins ≡ s.logins
unfolding upgraded set_hash
upgraded-logins c password u s = ground arith

insert_session-stored :
    (c : Call) (row : Login) (s : AuthStore)
    → c.faults insert_login ≡ false
    → find_login_row row.token_hash s.logins ≡ none
    → any (has_id row.user_id) s.users ≡ true
    → find_login_row row.token_hash (insert_session c row s).logins ≡ some row
unfolding insert_session
insert_session-stored c row s works new owner =
    rw (works, new, owner) (find_login_row-snoc row.token_hash row s.logins new refl)

-- The right password of an account opens a session: for a new token the cookie that the login hands
-- out is that account's, at every later moment of the next thirty days (to the second at which the
-- row expires), if the database reads the account and stores the row.
pub session_for-handle_login :
    (c later : Call) (token username password : Text) (s : AuthStore) (u : User)
    → c.faults find_user ≡ false
    → find_by (same_name (trim_space username)) s.users ≡ some u
    → (verify_password c.hashing password u.salt u.hash).0 ≡ true
    → c.faults insert_login ≡ false
    → find_login_row (hash_token c.hashing token) s.logins ≡ none
    → later.faults find_login ≡ false
    → hash_token later.hashing token ≡ hash_token c.hashing token
    → later.now ≤ ((c.now + auth_ttl) / second) * second
    → (session_for later token (handle_login c token username password s).0).1 ≡ some u.id
unfolding handle_login login login_as open_session text_eq upgraded
session_for-handle_login c later token username password s u reads found right stores new works same
      live =
    rw (reads, found, right)
      (session_for_stored later token _ row works
        (rw same (insert_session-stored c row w stores fresh owner)) live)
  where
    row : Login
    row = record {
      token_hash = hash_token c.hashing token;
      user_id = u.id;
      expires_at = (c.now + auth_ttl) / second;
    }

    w : AuthStore
    w = prune_sessions c (upgraded c password u s)

    fresh : find_login_row (hash_token c.hashing token) w.logins ≡ none
    fresh =
        prune_logins-none (hash_token c.hashing token) c (upgraded c password u s)
          (ap (find_login_row (hash_token c.hashing token)) (upgraded-logins c password u s) ∙ new)

    owner : any (has_id u.id) w.users ≡ true
    owner =
        ap (any (has_id u.id)) (prune_users c (upgraded c password u s))
        ∙ upgraded-has_id u.id c password u s
        ∙ find_by-any (same_name (trim_space username)) s.users u found
