-- ===== src/Auth/Requests.antt =====
-- The requests to the account store in any order, and what they keep true.
use goflix.Base.{
  ◌+◌, ◌≤◌, Bool, true, false, not, ◌&&◌, List, [], ◌∷◌, Option, none, some, Text, text_eq,
  text_eq_iff, leb, if◌then◌else◌, any, keep, length, All, ◌≡◌, refl, inl, inr, arith, Bool-cases,
  Option-cases, ◌∙◌, ap, sym,
}
use goflix.Auth.Credentials.{verify_password, password_length_ok}
use goflix.Auth.Store.{
  has_id, find_by, admins, User, Login, AuthStore, Call, update_hash, count_admins, delete_logins,
  delete_user,
}
use goflix.Auth.Login.{login, handle_register, handle_login, session_for, logout}
use goflix.Auth.Manage.{
  logout_all_sessions, delete_user_locked, delete_checked, find_account, delete_account_self,
  delete_account, replace_hash, change_password,
}
use goflix.Auth.Rows.{
  UniqueBy, id_of, name_of, managed_by_someone, IsManaged, UniqueBy-keep, any-keep-true,
}
use goflix.Auth.Managed.{
  register-IsManaged, set_hash-IsManaged, keep_logins-IsManaged, login_as-IsManaged,
  open_session-IsManaged, login_of-IsManaged, drop_token-IsManaged, session_of-IsManaged,
}

-- The requests that change the store, each with what the client sends. The ids of the last four are
-- those of the signed-in user, or of the account that an admin names.
pub data Request : Type 0 where
  create_user : (token username password invite email : Text) → Request
  sign_in : (token username password : Text) → Request
  resume : (token : Text) → Request
  sign_out : (token : Text) → Request
  sign_out_all : (id : Text) → Request
  remove_self : (id password : Text) → Request
  remove_other : (requester target : Text) → Request
  new_password : (id current next : Text) → Request

unfoldable pub serve : Call → Request → AuthStore → AuthStore
serve c (create_user token username password invite email) s =
    (handle_register c token username password invite email s).0
serve c (sign_in token username password) s = (handle_login c token username password s).0
serve c (resume token) s = (session_for c token s).0
serve c (sign_out token) s = logout c token s
serve c (sign_out_all id) s = logout_all_sessions c id s
serve c (remove_self id password) s = (delete_account_self c id password s).0
serve c (remove_other requester target) s = (delete_account c requester target s).0
serve c (new_password id current next) s = (change_password c id current next s).0

abbrev spares : Text → User → Bool
spares id u = not (has_id id u)

keep_all :
    (id : Text) (users : List User) → any (has_id id) users ≡ false → keep (spares id) users ≡ users
keep_all id [] h = refl
keep_all id (u ∷ users) h = ground (arith, h, keep_all id users (ground (arith, h)))

-- Deleting the account of an id costs at most its one row.
admins-keep :
    (id : Text) (u : User) (users : List User)
    → UniqueBy id_of users
    → find_by (has_id id) users ≡ some u
    → length (admins users)
      ≤ length (admins (keep (spares id) users)) + (if u.is_admin then 1 else 0)
unfolding UniqueBy find_by
admins-keep id u [] d h = ground (arith, h)
admins-keep id u (w ∷ users) d h = elim (Bool-cases (has_id id w)) [
  | inl hit ↦ ground (arith, hit, h, keep_all id users (others (ground (arith, hit))))
  | inr miss ↦ ground (arith, miss, h, admins-keep id u users d.1 (ground (arith, h, miss)))
]
  where
    others : has_id id w ≡ true → any (has_id id) users ≡ false
    others hit =
        unfold has_id in
        ap (λ k. any (λ v. text_eq v.id k) users)
          (sym ((text_eq_iff w.id id).0 (unfold has_id in hit)))
        ∙ d.0

logout_all_sessions-IsManaged :
    (c : Call) (id : Text) (s : AuthStore) → IsManaged s → IsManaged (logout_all_sessions c id s)
unfolding logout_all_sessions
logout_all_sessions-IsManaged c id s m = elim (Bool-cases (c.faults delete_logins)) [
  | inl broken ↦ rw broken m
  | inr works ↦ rw works (keep_logins-IsManaged s _ m)
]

has_id_eq : (id : Text) (u : User) → has_id id u ≡ text_eq u.id id
unfolding has_id
has_id_eq id u = refl

-- The sessions that are left are those of other accounts, which are kept.
owned-keep :
    (id : Text) (users : List User) (logins : List Login)
    → All (λ l. any (has_id l.user_id) users ≡ true) logins
    → All
        (λ l. any (has_id l.user_id) (keep (spares id) users) ≡ true)
        (keep (λ l. not (text_eq l.user_id id)) logins)
owned-keep id users [] a = tt
owned-keep id users (l ∷ logins) a = elim (Bool-cases (text_eq l.user_id id)) [
  | inl theirs ↦ rw theirs (owned-keep id users logins a.1)
  | inr other ↦ rw other (
    any-keep-true (has_id l.user_id) (spares id) users (differs other) a.0,
    owned-keep id users logins a.1,
  )
]
  where
    differs :
        text_eq l.user_id id ≡ false → (u : User) → has_id l.user_id u ≡ true → spares id u ≡ true
    differs other u hit = ground (
      arith,
      other,
      hit,
      has_id_eq l.user_id u,
      has_id_eq id u,
      text_eq_iff u.id l.user_id,
      text_eq_iff u.id id,
      text_eq_iff l.user_id id,
    )

delete_user_locked-IsManaged :
    (c : Call) (id : Text) (s : AuthStore)
    → IsManaged s
    → 1 ≤ length (admins (keep (spares id) s.users))
    → IsManaged (delete_user_locked c id s).0
unfolding delete_user_locked logout_all_sessions
delete_user_locked-IsManaged c id s m someone = elim (Bool-cases (c.faults delete_logins)) [
  | inl broken ↦ rw broken m
  | inr works ↦ elim (Bool-cases (c.faults delete_user)) [
    | inl broken ↦ rw (works, broken) (keep_logins-IsManaged s (λ l. not (text_eq l.user_id id)) m)
    | inr both ↦
        rw (works, both)
          (record {
            ids = UniqueBy-keep id_of (spares id) s.users m.ids;
            names = UniqueBy-keep name_of (spares id) s.users m.names;
            managed = unfold managed_by_someone in ground (arith, someone);
            owned = owned-keep id s.users s.logins m.owned;
          })
  ]
]

someone_manages :
    (users : List User) (u : User) (id : Text)
    → managed_by_someone users ≡ true
    → find_by (has_id id) users ≡ some u
    → 1 ≤ length (admins users)
unfolding managed_by_someone find_by
someone_manages [] u id m h = ground (arith, h)
someone_manages (v ∷ users) u id m h = ground (arith, m)

delete_checked-IsManaged :
    (c : Call) (u : User) (id : Text) (s : AuthStore)
    → IsManaged s
    → find_by (has_id id) s.users ≡ some u
    → IsManaged (delete_checked c u id s).0
unfolding delete_checked
delete_checked-IsManaged c u id s m found =
    elim (Bool-cases (u.is_admin && c.faults count_admins)) [
      | inl broken ↦ rw broken m
      | inr counted ↦ elim (Bool-cases (u.is_admin && leb (length (admins s.users)) 1)) [
        | inl last ↦ rw (counted, last) m
        | inr more ↦
            rw (counted, more)
              (delete_user_locked-IsManaged c id s m (
                ground (
                  arith,
                  more,
                  admins-keep id u s.users m.ids found,
                  someone_manages s.users u id m.managed found,
                )))
      ]
    ]

find_account-some :
    (c : Call) (id : Text) (s : AuthStore) (u : User)
    → find_account c id s ≡ some u
    → find_by (has_id id) s.users ≡ some u
unfolding find_account
find_account-some c id s u h = ground (arith, h)

delete_account_self-IsManaged :
    (c : Call) (id password : Text) (s : AuthStore)
    → IsManaged s
    → IsManaged (delete_account_self c id password s).0
unfolding delete_account_self
delete_account_self-IsManaged c id password s m = elim (Option-cases (find_account c id s)) [
  | inl absent ↦ rw (absent, delete_account_self) m
  | inr (u, found) ↦ elim (Bool-cases (verify_password c.hashing password u.salt u.hash).0) [
    | inr wrong ↦ rw (found, wrong, delete_account_self) m
    | inl right ↦
        rw (found, right, delete_account_self)
          (delete_checked-IsManaged c u id s m (find_account-some c id s u found))
  ]
]

delete_account-IsManaged :
    (c : Call) (requester target : Text) (s : AuthStore)
    → IsManaged s
    → IsManaged (delete_account c requester target s).0
unfolding delete_account
delete_account-IsManaged c requester target s m = elim (Bool-cases (text_eq requester target)) [
  | inl self ↦ rw self m
  | inr other ↦ elim (Option-cases (find_account c target s)) [
    | inl absent ↦ rw (other, absent) m
    | inr (u, found) ↦
        rw (other, found)
          (delete_checked-IsManaged c u target s m (find_account-some c target s u found))
  ]
]

replace_hash-IsManaged :
    (c : Call) (id : Text) (hash : Option Text) (s : AuthStore)
    → IsManaged s
    → IsManaged (replace_hash c id hash s).0
unfolding replace_hash
replace_hash-IsManaged c id none s m = m
replace_hash-IsManaged c id (some hash) s m = elim (Bool-cases (c.faults update_hash)) [
  | inl broken ↦ rw broken m
  | inr works ↦ rw works (set_hash-IsManaged id hash s m)
]

change_password-IsManaged :
    (c : Call) (id current next : Text) (s : AuthStore)
    → IsManaged s
    → IsManaged (change_password c id current next s).0
unfolding change_password
change_password-IsManaged c id current next s m = elim (Bool-cases (password_length_ok next)) [
  | inr short ↦ rw short m
  | inl fits ↦ elim (Option-cases (find_account c id s)) [
    | inl absent ↦ rw (fits, absent) m
    | inr (u, found) ↦ elim (Bool-cases (verify_password c.hashing current u.salt u.hash).0) [
      | inr wrong ↦ rw (fits, found, wrong) m
      | inl right ↦
          rw (fits, found, right) (replace_hash-IsManaged c id (c.hashing.bcrypt next) s m)
    ]
  ]
]

-- Every request leaves the store managed: ids are unique, user names are unique up to letter case,
-- every session belongs to an account, and unless there is no account at all there is an admin.
-- This holds whichever statements of the database fail.
pub serve-IsManaged :
    (c : Call) (r : Request) (s : AuthStore) → IsManaged s → IsManaged (serve c r s)
unfolding serve handle_register handle_login login session_for logout
serve-IsManaged c (create_user token username password invite email) s m =
    open_session-IsManaged c token _
      (login_of-IsManaged c _ (register-IsManaged c username password invite email s m))
serve-IsManaged c (sign_in token username password) s m =
    open_session-IsManaged c token _ (login_as-IsManaged c password _ s m)
serve-IsManaged c (resume token) s m = session_of-IsManaged c _ s m
serve-IsManaged c (sign_out token) s m = drop_token-IsManaged c _ s m
serve-IsManaged c (sign_out_all id) s m = logout_all_sessions-IsManaged c id s m
serve-IsManaged c (remove_self id password) s m = delete_account_self-IsManaged c id password s m
serve-IsManaged c (remove_other requester target) s m =
    delete_account-IsManaged c requester target s m
serve-IsManaged c (new_password id current next) s m =
    change_password-IsManaged c id current next s m
