-- ===== src/Auth/Managed.antt =====
-- Registering, signing in and the sessions keep what `IsManaged` says of the account store.
use goflix.Base.{
  ◌+◌, ◌*◌, Bool, true, false, not, ◌||◌, List, [], ◌∷◌, ◌++◌, map, Option, none, some, Text,
  text_eq, ltb, if◌then◌else◌, any, keep, length, All-keep, is_some, ◌≡◌, refl, inl, inr, arith,
  Bool-cases, Option-cases, ◌∙◌, ap, sym,
}
use goflix.Base.Strings.{to_lower, trim_space}
use goflix.Auth.Credentials.{verify_password}
use goflix.Auth.Store.{
  second, same_name, has_id, find_login_row, admins, prune_sessions, set_hash, User, Login,
  AuthStore, Call, Answer, count_users, insert_user, update_hash, prune_logins, extend_login,
  drop_login, insert_login, refused, answered,
}
use goflix.Auth.Register.{
  register, create_account, insert_account, is_empty, clashes, register_refusal,
}
use goflix.Auth.Login.{
  login_as, upgraded, insert_session, open_session, login_of, drop_token, slide, session_of,
}
use goflix.Auth.Rows.{
  id_of, name_of, managed_by_someone, IsManaged, All-map, All-weaken, All-snoc, any-map, any-snoc,
  UniqueBy-map, UniqueBy-snoc,
}

pub keep_logins-IsManaged :
    (s : AuthStore) (p : Login → Bool)
    → IsManaged s
    → IsManaged (record s { logins = keep p s.logins })
keep_logins-IsManaged s p m = record {
  ids = m.ids;
  names = m.names;
  managed = m.managed;
  owned = All-keep (λ l. any (has_id l.user_id) s.users ≡ true) p s.logins m.owned;
}

prune-IsManaged : (c : Call) (s : AuthStore) → IsManaged s → IsManaged (prune_sessions c s)
unfolding prune_sessions
prune-IsManaged c s m = elim (Bool-cases (c.faults prune_logins)) [
  | inl broken ↦ rw broken m
  | inr works ↦ rw works (keep_logins-IsManaged s _ m)
]

prune-users : (c : Call) (s : AuthStore) → (prune_sessions c s).users ≡ s.users
unfolding prune_sessions
prune-users c s = ground arith

abbrev rehash : Text → Text → User → User
rehash id hash u = if has_id id u then record u { hash = hash } else u

rehash-id : (id hash : Text) (u : User) → (rehash id hash u).id ≡ u.id
rehash-id id hash u = ground arith

rehash-name : (id hash : Text) (u : User) → name_of (rehash id hash u) ≡ name_of u
rehash-name id hash u = ground arith

admins-rehash :
    (id hash : Text) (users : List User)
    → length (admins (map (rehash id hash) users)) ≡ length (admins users)
admins-rehash id hash [] = refl
admins-rehash id hash (u ∷ users) = ground (arith, admins-rehash id hash users)

someone-rehash :
    (id hash : Text) (users : List User)
    → managed_by_someone (map (rehash id hash) users) ≡ managed_by_someone users
unfolding managed_by_someone
someone-rehash id hash [] = refl
someone-rehash id hash (u ∷ users) = ground (arith, admins-rehash id hash (u ∷ users))

pub set_hash-IsManaged :
    (id hash : Text) (s : AuthStore) → IsManaged s → IsManaged (set_hash id hash s)
unfolding set_hash
set_hash-IsManaged id hash s m = record {
  ids = UniqueBy-map id_of (rehash id hash) s.users (rehash-id id hash) m.ids;
  names = UniqueBy-map name_of (rehash id hash) s.users (rehash-name id hash) m.names;
  managed = someone-rehash id hash s.users ∙ m.managed;
  owned =
      All-weaken (λ l. any (has_id l.user_id) s.users ≡ true)
        (λ l. any (has_id l.user_id) (map (rehash id hash) s.users) ≡ true) s.logins
        (λ l h. any-map (has_id l.user_id) (rehash id hash) s.users (same_id l.user_id) ∙ h)
        m.owned;
}
  where
    same_id : (k : Text) (u : User) → has_id k (rehash id hash u) ≡ has_id k u
    same_id k u = unfold has_id in ap (λ i. text_eq i k) (rehash-id id hash u)

someone-snoc :
    (users : List User) (u : User)
    → managed_by_someone users ≡ true
    → (is_empty users ≡ true → u.is_admin ≡ true)
    → managed_by_someone (users ++ u ∷ []) ≡ true
unfolding managed_by_someone
someone-snoc users u m first = elim (Bool-cases (is_empty users)) [
  | inl none_yet ↦ ground (arith, admins-snoc users u, first none_yet)
  | inr some_user ↦ ground (arith, m, some_user, admins-snoc users u)
]
  where
    admins-snoc :
        (users : List User) (u : User)
        → length (admins (users ++ u ∷ [])) ≡ length (admins users) + (if u.is_admin then 1 else 0)
    admins-snoc [] u = ground arith
    admins-snoc (v ∷ users) u = ground (arith, admins-snoc users u)

any-clashes :
    (u : User) (users : List User)
    → any (clashes u) users ≡ false
    → (any (has_id u.id) users ≡ false) × (any (same_name u.username) users ≡ false)
unfolding clashes
any-clashes u [] h = (refl, refl)
any-clashes u (v ∷ users) h = ground (arith, h, any-clashes u users (ground (arith, h)))

insert_account-IsManaged :
    (c : Call) (u : User) (s : AuthStore)
    → IsManaged s
    → (is_empty s.users ≡ true → u.is_admin ≡ true)
    → IsManaged (insert_account c u s).0
unfolding insert_account
insert_account-IsManaged c u s m first =
    elim (Bool-cases (c.faults insert_user || any (clashes u) s.users)) [
      | inl refusal ↦ rw refusal m
      | inr fine ↦ rw fine (record {
        ids =
            UniqueBy-snoc id_of s.users u m.ids
              (unfold has_id in (any-clashes u s.users (ground (arith, fine))).0);
        names =
            UniqueBy-snoc name_of s.users u m.names
              (unfold same_name in (any-clashes u s.users (ground (arith, fine))).1);
        managed = someone-snoc s.users u m.managed first;
        owned =
            All-weaken (λ l. any (has_id l.user_id) s.users ≡ true)
              (λ l. any (has_id l.user_id) (s.users ++ u ∷ []) ≡ true) s.logins
              (λ l h. any-snoc (has_id l.user_id) s.users u ∙ ground (arith, h)) m.owned;
      })
    ]

create_account-IsManaged :
    (c : Call) (name email : Text) (hash : Option Text) (s : AuthStore)
    → IsManaged s
    → IsManaged (create_account c name email hash s).0
unfolding create_account
create_account-IsManaged c name email none s m = m
create_account-IsManaged c name email (some hash) s m = elim (Bool-cases (c.faults count_users)) [
  | inl broken ↦ rw broken m
  | inr works ↦ rw works (
      insert_account-IsManaged c _ (prune_sessions c s) (prune-IsManaged c s m)
        (λ e. ap is_empty (sym (prune-users c s)) ∙ e))
]

pub register-IsManaged :
    (c : Call) (username password invite email : Text) (s : AuthStore)
    → IsManaged s
    → IsManaged (register c username password invite email s).0
unfolding register
register-IsManaged c username password invite email s m =
    elim (Option-cases
      (register_refusal c (trim_space username) password invite (to_lower (trim_space email)) s)) [
        | inl fine ↦
            rw (fine, register) (create_account-IsManaged c _ _ (c.hashing.bcrypt password) s m)
        | inr r ↦ rw (r.1, register) m
      ]

pub login_as-IsManaged :
    (c : Call) (password : Text) (found : Option User) (s : AuthStore)
    → IsManaged s
    → IsManaged (login_as c password found s).0
unfolding login_as upgraded
login_as-IsManaged c password none s m = m
login_as-IsManaged c password (some u) s m =
    elim (Bool-cases (verify_password c.hashing password u.salt u.hash).0) [
      | inr wrong ↦ rw wrong m
      | inl right ↦
          rw right
            (elim (Bool-cases (
              text_eq (verify_password c.hashing password u.salt u.hash).1 []
              || c.faults update_hash)) [
                | inl same ↦ rw same (prune-IsManaged c s m)
                | inr upgrade ↦ rw upgrade (prune-IsManaged c _ (set_hash-IsManaged u.id _ s m))
              ])
    ]

pub insert_session-IsManaged :
    (c : Call) (row : Login) (s : AuthStore) → IsManaged s → IsManaged (insert_session c row s)
unfolding insert_session
insert_session-IsManaged c row s m =
    elim (Bool-cases (
      c.faults insert_login
      || is_some (find_login_row row.token_hash s.logins)
      || not (any (has_id row.user_id) s.users))) [
        | inl refusal ↦ rw refusal m
        | inr fine ↦ rw fine (record {
          ids = m.ids;
          names = m.names;
          managed = m.managed;
          owned =
              All-snoc (λ l. any (has_id l.user_id) s.users ≡ true) s.logins row m.owned
                (ground (arith, fine));
        })
      ]

pub open_session-IsManaged :
    (c : Call) (token : Text) (a : AuthStore × Answer Login)
    → IsManaged a.0
    → IsManaged (open_session c token a).0
unfolding open_session
open_session-IsManaged c token (s, refused r) m = m
open_session-IsManaged c token (s, answered l) m = insert_session-IsManaged c _ s m

pub login_of-IsManaged :
    (c : Call) (a : AuthStore × Answer User) → IsManaged a.0 → IsManaged (login_of c a).0
unfolding login_of
login_of-IsManaged c (s, refused r) m = m
login_of-IsManaged c (s, answered u) m = m

pub drop_token-IsManaged :
    (c : Call) (hash : Text) (s : AuthStore) → IsManaged s → IsManaged (drop_token c hash s)
unfolding drop_token
drop_token-IsManaged c hash s m = elim (Bool-cases (c.faults drop_login)) [
  | inl broken ↦ rw broken m
  | inr works ↦ rw works (keep_logins-IsManaged s _ m)
]

slide-IsManaged :
    (c : Call) (hash : Text) (s : AuthStore) → IsManaged s → IsManaged (slide c hash s)
unfolding slide
slide-IsManaged c hash s m = elim (Bool-cases (c.faults extend_login)) [
  | inl broken ↦ rw broken m
  | inr works ↦ rw works (record {
    ids = m.ids;
    names = m.names;
    managed = m.managed;
    owned =
        All-map (λ l. any (has_id l.user_id) s.users ≡ true)
          (λ l. any (has_id l.user_id) s.users ≡ true) _ s.logins
          (λ l h. elim (Bool-cases (text_eq l.token_hash hash)) [
            | inl hit ↦ rw hit h
            | inr miss ↦ rw miss h
          ])
          m.owned;
  })
]

pub session_of-IsManaged :
    (c : Call) (l : Option Login) (s : AuthStore) → IsManaged s → IsManaged (session_of c l s).0
unfolding session_of
session_of-IsManaged c none s m = m
session_of-IsManaged c (some l) s m = elim (Bool-cases (ltb (l.expires_at * second) c.now)) [
  | inl expired ↦ rw expired (drop_token-IsManaged c l.token_hash s m)
  | inr live ↦ rw live (slide-IsManaged c l.token_hash s m)
]
