-- ===== src/Auth/Signup.antt =====
-- What `register` does on each of its branches, and that the new account can sign in.
use goflix.Base.{
  ◌+◌, ◌/◌, Bool, true, false, ◌||◌, List, [], ◌∷◌, ◌++◌, Option, none, some, Text, text_eq,
  text_eq_iff, any, ◌≡◌, ◌⊎◌, refl, inl, inr, arith, Bool-cases, Option-cases, ◌∙◌, ap, sym,
}
use goflix.Base.Strings.{to_lower, trim_space}
use goflix.Auth.Credentials.{valid_username, verify_password, password_length_ok}
use goflix.Auth.Store.{
  second, auth_ttl, same_name, find_by, prune_sessions, User, AuthStore, Call, Answer, count_users,
  insert_user, find_user, no_account, refused, answered,
}
use goflix.Auth.Register.{
  register, form_refusal, name_refusal, create_account, insert_account, is_empty, clashes,
  register_refusal, new_account,
}
use goflix.Auth.Login.{login, login_as}
use goflix.Base.Strings.{has_prefix, cut_prefix}
use goflix.Base.{codes}
use mathlib.Core.Path.{subst}

-- What holds of the store before and after, for each answer.
unfoldable pub Registered : Call → Text → Text → AuthStore → AuthStore → Answer User → Type 0
Registered c name password s t (refused r) = t.users ≡ s.users
Registered c name password s t (answered u) =
    (t.users ≡ s.users ++ u ∷ [])
    × (u.username ≡ name)
    × (valid_username name ≡ true)
    × (password_length_ok password ≡ true)
    × (any (same_name name) s.users ≡ false)
    × (c.hashing.bcrypt password ≡ some u.hash)
    × (u.is_admin ≡ is_empty s.users)

prune_users_same : (c : Call) (s : AuthStore) → (prune_sessions c s).users ≡ s.users
unfolding prune_sessions
prune_users_same c s = ground arith

insert_account-cases :
    (c : Call) (u : User) (s : AuthStore)
    → (insert_account c u s ≡ (s, refused no_account))
      ⊎ (insert_account c u s ≡ (record s { users = s.users ++ u ∷ [] }, answered u))
unfolding insert_account
insert_account-cases c u s = elim (Bool-cases (c.faults insert_user || any (clashes u) s.users)) [
  | inl refusal ↦ inl (rw refusal refl)
  | inr fine ↦ inr (rw fine refl)
]

register_refusal-none :
    (c : Call) (name password invite email : Text) (s : AuthStore)
    → register_refusal c name password invite email s ≡ none
    → (valid_username name ≡ true)
      × (password_length_ok password ≡ true)
      × (any (same_name name) s.users ≡ false)
unfolding register_refusal form_refusal name_refusal
register_refusal-none c name password invite email s h = ground (arith, h)

create_account-Registered :
    (c : Call) (name password email : Text) (s : AuthStore)
    → valid_username name ≡ true
    → password_length_ok password ≡ true
    → any (same_name name) s.users ≡ false
    → (hash : Option Text) → c.hashing.bcrypt password ≡ hash
    → Registered c name password s
        (create_account c name email hash s).0
        (create_account c name email hash s).1
unfolding create_account Registered
create_account-Registered c name password email s valid fits new none h = refl
create_account-Registered c name password email s valid fits new (some hash) h =
    elim (Bool-cases (c.faults count_users)) [
      | inl broken ↦ rw broken refl
      | inr works ↦
          rw works
            (elim (insert_account-cases c (new_account c name email hash (is_empty s.users))
              (prune_sessions c s)) [
                | inl clash ↦ rw clash (prune_users_same c s)
                | inr done ↦ rw done (
                  ap (λ users. users ++ new_account c name email hash (is_empty s.users) ∷ [])
                      (prune_users_same c s),
                  refl,
                  valid,
                  fits,
                  new,
                  h,
                  refl,
                )
              ])
    ]

-- A refused registration leaves the accounts as they were. One that is answered adds exactly the
-- new account: its name is the trimmed one and valid, nobody had it in any letter case, the length
-- of the password is within bounds and its hash is stored, and it is an admin exactly if it is the
-- first account.
pub register_lem :
    (c : Call) (username password invite email : Text) (s : AuthStore)
    → Registered c
        (trim_space username)
        password
        s
        (register c username password invite email s).0
        (register c username password invite email s).1
unfolding register Registered
register_lem c username password invite email s =
    elim (Option-cases
      (register_refusal c (trim_space username) password invite (to_lower (trim_space email)) s)) [
        | inr r ↦ rw (r.1, register) refl
        | inl fine ↦
            let checks =
              register_refusal-none c (trim_space username) password invite
                (to_lower (trim_space email)) s fine in
            rw (fine, register)
              (create_account-Registered c (trim_space username) password _ s checks.0 checks.1
                checks.2 (c.hashing.bcrypt password) refl)
      ]

find_by-snoc :
    (p : User → Bool) (users : List User) (u : User)
    → any p users ≡ false
    → p u ≡ true
    → find_by p (users ++ u ∷ []) ≡ some u
unfolding find_by
find_by-snoc p [] u none_yet hit = rw hit refl
find_by-snoc p (v ∷ users) u none_yet hit =
    ground (arith, none_yet, find_by-snoc p users u (ground (arith, none_yet)) hit)

any-same_name :
    (a b : Text) (users : List User)
    → to_lower a ≡ to_lower b
    → any (same_name a) users ≡ any (same_name b) users
unfolding same_name
any-same_name a b users same = ap (λ k. any (λ u. text_eq (to_lower u.username) k) users) same

same_name_self : (a : Text) (u : User) → to_lower a ≡ to_lower u.username → same_name a u ≡ true
unfolding same_name
same_name_self a u same = (text_eq_iff (to_lower u.username) (to_lower a)).1 (sym same)

-- Whoever has registered can sign in with that name, in any letter case, and that password, from
-- the moment of the answer on, and gets a session of the new account, if the database reads the
-- account and the stored hash is one that bcrypt makes and accepts for the password.
pub login-register :
    (c later : Call) (username again password invite email : Text) (s : AuthStore) (u : User)
    → (register c username password invite email s).1 ≡ answered u
    → later.faults find_user ≡ false
    → to_lower (trim_space again) ≡ to_lower (trim_space username)
    → has_prefix (codes "$2") u.hash ≡ true
    → later.hashing.compare_hash u.hash password ≡ true
    → (login later again password (register c username password invite email s).0).1
      ≡ answered
          (record { token_hash = []; user_id = u.id; expires_at = (later.now + auth_ttl) / second })
unfolding login login_as verify_password cut_prefix Registered
login-register c later username again password invite email s u done reads same modern right =
    rw (reads, added.0, found) (rw (modern, right) refl)
  where
    added :
        Registered c
          (trim_space username)
          password
          s
          (register c username password invite email s).0
          (answered u)
    added =
        subst
          (λ a.
            Registered c (trim_space username) password s
              (register c username password invite email s).0 a)
          done (register_lem c username password invite email s)

    found : find_by (same_name (trim_space again)) (s.users ++ u ∷ []) ≡ some u
    found =
        find_by-snoc (same_name (trim_space again)) s.users u
          (any-same_name (trim_space again) (trim_space username) s.users same ∙ added.4)
          (same_name_self (trim_space again) u (same ∙ ap to_lower (sym added.1)))
