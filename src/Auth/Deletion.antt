-- ===== src/Auth/Deletion.antt =====
-- What is left of an account that an admin deletes.
use goflix.Base.{
  Bool, true, false, not, ◌&&◌, List, [], ◌∷◌, Option, none, some, Text, text_eq, text_eq_iff,
  text_key, any, keep, length, leb, ◌≡◌, ◌≢◌, ◌⊎◌, if◌then◌else◌, ap, refl, inl, inr, arith,
  Bool-cases, Option-cases,
}
use goflix.Base.Map.{Map, lookup, lookup-erase}
use goflix.Auth.Store.{
  User, AuthStore, Call, delete_logins, delete_user, count_admins, Refusal, has_id, find_by, admins,
  delete_userdata,
}
use goflix.Auth.Manage.{
  find_account, delete_account, delete_checked, delete_user_locked, logout_all_sessions,
}
use goflix.Auth.Handlers.{
  done, forbidden, Site, user_is_admin, delete_user_state, reply_of, cleared, admin_guard,
  admin_user_delete,
}

any-keep-not {ℓ} :
    {A : Type ℓ} (p : A → Bool) (xs : List A) → any p (keep (λ x. not (p x)) xs) ≡ false
any-keep-not p [] = refl
any-keep-not p (x ∷ xs) = ground (arith, any-keep-not p xs)

find_by-keep :
    (p q : User → Bool) (xs : List User)
    → ((x : User) → p x ≡ true → q x ≡ true)
    → find_by p (keep q xs) ≡ find_by p xs
unfolding find_by
find_by-keep p q [] h = refl
find_by-keep p q (x ∷ xs) h = ground (arith, h x, find_by-keep p q xs h)

-- From the tables of `s` to those of `after`, nothing of the account is left, and every other
-- account is found as before.
abbrev pub IsGone : Text → AuthStore → AuthStore → Type 0
IsGone id s after =
    (any (has_id id) after.users ≡ false)
    × (any (λ l. text_eq l.user_id id) after.logins ≡ false)
    × ((j : Text)
        → text_eq id j ≡ false
        → find_by (has_id j) after.users ≡ find_by (has_id j) s.users)

other_id :
    (id j : Text) (u : User) → text_eq id j ≡ false → has_id j u ≡ true → not (has_id id u) ≡ true
unfolding has_id
other_id id j u h k =
    ground (arith, h, k, text_eq_iff u.id id, text_eq_iff u.id j, text_eq_iff id j)

delete_user_locked-IsGone :
    (c : Call) (id : Text) (s : AuthStore)
    → (delete_user_locked c id s).1 ≡ none
    → IsGone id s (delete_user_locked c id s).0
unfolding delete_user_locked logout_all_sessions
delete_user_locked-IsGone c id s h = elim (Bool-cases (c.faults delete_logins)) [
  | inl broken ↦ absurd (ground (arith, broken, h))
  | inr works ↦ elim (Bool-cases (c.faults delete_user)) [
    | inl broken ↦ absurd (ground (arith, works, broken, h))
    | inr both ↦
        rw (works, both)
          (
            any-keep-not (has_id id) s.users,
            any-keep-not (λ l. text_eq l.user_id id) s.logins,
            λ j h.
                find_by-keep (has_id j) (λ u. not (has_id id u)) s.users
                  (λ u k. other_id id j u h k),
          )
  ]
]

delete_checked-IsGone :
    (c : Call) (u : User) (id : Text) (s : AuthStore)
    → (delete_checked c u id s).1 ≡ none
    → IsGone id s (delete_checked c u id s).0
unfolding delete_checked
delete_checked-IsGone c u id s h = elim (Bool-cases (u.is_admin && c.faults count_admins)) [
  | inl broken ↦ absurd (ground (arith, broken, h))
  | inr counted ↦ elim (Bool-cases (u.is_admin && leb (length (admins s.users)) 1)) [
    | inl last ↦ absurd (ground (arith, counted, last, h))
    | inr more ↦
        rw (counted, more) (delete_user_locked-IsGone c id s (ground (arith, counted, more, h)))
  ]
]

delete_account-IsGone :
    (c : Call) (requester target : Text) (s : AuthStore)
    → (delete_account c requester target s).1 ≡ none
    → (text_eq requester target ≡ false) × IsGone target s (delete_account c requester target s).0
unfolding delete_account
delete_account-IsGone c requester target s h = elim (Bool-cases (text_eq requester target)) [
  | inl self ↦ absurd (ground (arith, self, h))
  | inr other ↦ elim (Option-cases (find_account c target s)) [
    | inl absent ↦ absurd (ground (arith, other, absent, h))
    | inr (u, found) ↦ (
      other,
      rw (other, found) (delete_checked-IsGone c u target s (ground (arith, other, found, h))),
    )
  ]
]

-- An account that is not deleted: the rows of the accounts are as they were.
delete_user_locked_refused :
    (c : Call) (id : Text) (s : AuthStore)
    → (delete_user_locked c id s).1 ≢ none
    → (delete_user_locked c id s).0.users ≡ s.users
unfolding delete_user_locked logout_all_sessions
delete_user_locked_refused c id s h = ground arith

delete_checked_refused :
    (c : Call) (u : User) (id : Text) (s : AuthStore)
    → (delete_checked c u id s).1 ≢ none
    → (delete_checked c u id s).0.users ≡ s.users
unfolding delete_checked
delete_checked_refused c u id s h = ground (arith, delete_user_locked_refused c id s)

delete_account_refused :
    (c : Call) (requester target : Text) (s : AuthStore)
    → (delete_account c requester target s).1 ≢ none
    → (delete_account c requester target s).0.users ≡ s.users
unfolding delete_account
delete_account_refused c requester target s h = elim (Bool-cases (text_eq requester target)) [
  | inl self ↦ rw self refl
  | inr other ↦ elim (Option-cases (find_account c target s)) [
    | inl absent ↦ rw (other, delete_account) (rw absent refl)
    | inr (u, found) ↦
        rw (other, found)
          (delete_checked_refused c u target s (λ e. h (rw (other, found, delete_account) e)))
  ]
]

-- The synced data of an account: gone, unless the statement fails or there is no store.
abbrev pub row_of : Text → Option (Map Text Text) → Option Text
row_of id none = none
row_of id (some rows) = lookup id rows

delete_user_state-row_of :
    (c : Call) (id j : Text) (rows : Option (Map Text Text))
    → row_of j (delete_user_state c id rows)
      ≡ (if text_eq id j && not (c.faults delete_userdata) then none else row_of j rows)
unfolding delete_user_state
delete_user_state-row_of c id j none = ground arith
delete_user_state-row_of c id j (some rows) = ground (arith, lookup-erase id j rows)

-- What a deletion that is answered with `done` leaves of the account
abbrev pub IsRemoved : Call → Text → Text → Site → Site → Type 0
IsRemoved c user target w after =
    (user_is_admin c user w.accounts ≡ true)
    × (text_eq user target ≡ false)
    × IsGone target w.accounts after.accounts
    × ((j : Text)
        → row_of j after.userdata ≡ (
            if text_eq target j && not (c.faults delete_userdata)
            then none
            else row_of j w.userdata))

-- What a refused deletion leaves as it was
abbrev pub IsSpared : Site → Site → Type 0
IsSpared w after = (after.accounts.users ≡ w.accounts.users) × (after.userdata ≡ w.userdata)

module _ (c : Call) (user target : Text) (w : Site) where
  deletion_outcome :
      (a : AuthStore × Option Refusal)
      → delete_account c user target w.accounts ≡ a
      → user_is_admin c user w.accounts ≡ true
      → (((cleared c target (reply_of w a)).1 ≡ done)
          × IsRemoved c user target w (cleared c target (reply_of w a)).0)
        ⊎ (((cleared c target (reply_of w a)).1 ≢ done)
            × IsSpared w (cleared c target (reply_of w a)).0)
  unfolding cleared reply_of
  deletion_outcome (s, none) e admin =
      let (other, gone) = delete_account-IsGone c user target w.accounts (ap (λ x. x.1) e) in
      inl (refl, (admin, other, rw e at gone, λ j. delete_user_state-row_of c target j w.userdata))
  deletion_outcome (s, some r) e admin = inr (
    (λ q. absurd (ground (arith, q))),
    (
      (rw e at (delete_account_refused c user target w.accounts)) (λ q. absurd (ground (arith, q))),
      refl,
    ),
  )

-- Deleting an account, whichever statements of the database fail. Whoever is not an admin, or not
-- signed in, is answered that it is forbidden, and nothing changes. Otherwise either the answer is
-- `done`, the account is not the requester's own, and neither it nor a session of it is left, nor its
-- synced data unless the statement that deletes it fails, while the other accounts and their synced
-- data stay;
-- or the answer is another one, and every account and all synced data stay.
pub admin_user_delete_lem :
    (c : Call) (user target : Text) (w : Site)
    → ((not (text_eq user []) && user_is_admin c user w.accounts ≡ false)
        × (admin_user_delete c user target w ≡ (w, forbidden)))
      ⊎ ((not (text_eq user []) && user_is_admin c user w.accounts ≡ true)
          × ((((admin_user_delete c user target w).1 ≡ done)
                × IsRemoved c user target w (admin_user_delete c user target w).0)
              ⊎ (((admin_user_delete c user target w).1 ≢ done)
                  × IsSpared w (admin_user_delete c user target w).0)))
unfolding admin_user_delete admin_guard
admin_user_delete_lem c user target w = elim (Bool-cases (admin_guard c user w.accounts)) [
  | inr denied ↦ rw (denied, admin_user_delete) (inl (refl, refl))
  | inl admin ↦ elim (Bool-cases (text_eq target [])) [
    | inl missing ↦
        rw (admin, admin_user_delete)
          (rw missing (inr (refl, inr ((λ q. absurd (ground (arith, q))), (refl, refl)))))
    | inr named ↦
        rw (admin, admin_user_delete)
          (rw named (
            inr (
              refl,
              deletion_outcome c user target w (delete_account c user target w.accounts) refl
                  (ground (arith, admin)),
            )))
  ]
]
