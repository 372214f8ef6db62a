-- ===== src/Auth/Rows.antt =====
-- What the account store keeps true: names and ids are unique, every session has its account, and
-- somebody manages the instance as soon as there is an account. With the lemmas on rows.
use goflix.Base.{
  Bool, true, false, ◌||◌, List, [], ◌∷◌, ◌++◌, map, Text, text_eq, text_eq_iff, ltb, any, keep,
  length, All, ◌≡◌, refl, inl, inr, arith, Bool-cases, ◌∙◌, ap,
}
use goflix.Base.Strings.{to_lower}
use goflix.Auth.Store.{has_id, admins, User, AuthStore}
use goflix.Auth.Register.{is_empty}

-- No two users have one key.
unfoldable pub UniqueBy : (User → Text) → List User → Type 0
UniqueBy key [] = Unit
UniqueBy key (u ∷ users) = (any (λ v. text_eq (key v) (key u)) users ≡ false) × UniqueBy key users

abbrev pub id_of : User → Text
id_of u = u.id

abbrev pub name_of : User → Text
name_of u = to_lower u.username

unfoldable pub managed_by_someone : List User → Bool
managed_by_someone users = is_empty users || ltb 0 (length (admins users))

pub record IsManaged (s : AuthStore) : Type 0 where
  pub ids : UniqueBy id_of s.users
  pub names : UniqueBy name_of s.users
  pub managed : managed_by_someone s.users ≡ true
  pub owned : All (λ l. any (has_id l.user_id) s.users ≡ true) s.logins

pub All-map {ℓ κ} :
    {A : Type ℓ} (P Q : A → Type κ) (f : A → A) (xs : List A)
    → ((x : A) → P x → Q (f x))
    → All P xs
    → All Q (map f xs)
All-map P Q f [] h a = tt
All-map P Q f (x ∷ xs) h a = (h x a.0, All-map P Q f xs h a.1)

pub All-weaken {ℓ κ} :
    {A : Type ℓ} (P Q : A → Type κ) (xs : List A) → ((x : A) → P x → Q x) → All P xs → All Q xs
All-weaken P Q [] h a = tt
All-weaken P Q (x ∷ xs) h a = (h x a.0, All-weaken P Q xs h a.1)

pub All-snoc {ℓ κ} :
    {A : Type ℓ} (P : A → Type κ) (xs : List A) (x : A) → All P xs → P x → All P (xs ++ x ∷ [])
All-snoc P [] x a p = (p, tt)
All-snoc P (y ∷ xs) x a p = (a.0, All-snoc P xs x a.1 p)

module _ (q : User → Bool) where
  pub any-map :
      (f : User → User) (users : List User)
      → ((u : User) → q (f u) ≡ q u)
      → any q (map f users) ≡ any q users
  any-map f [] h = refl
  any-map f (u ∷ users) h = ground (arith, h u, any-map f users h)

  pub any-snoc : (users : List User) (u : User) → any q (users ++ u ∷ []) ≡ any q users || q u
  any-snoc [] u = ground arith
  any-snoc (v ∷ users) u = ground (arith, any-snoc users u)

  pub any-keep-false :
      (p : User → Bool) (users : List User) → any q users ≡ false → any q (keep p users) ≡ false
  any-keep-false p [] h = refl
  any-keep-false p (u ∷ users) h = ground (arith, h, any-keep-false p users (ground (arith, h)))

  pub any-keep-true :
      (p : User → Bool) (users : List User)
      → ((u : User) → q u ≡ true → p u ≡ true)
      → any q users ≡ true
      → any q (keep p users) ≡ true
  any-keep-true p [] sub h = h
  any-keep-true p (u ∷ users) sub h = elim (Bool-cases (q u)) [
    | inl hit ↦ rw (sub u hit) (ground (arith, hit))
    | inr miss ↦ ground (arith, miss, h, any-keep-true p users sub (ground (arith, miss, h)))
  ]

pub text_eq_sym : (a b : Text) → text_eq a b ≡ text_eq b a
text_eq_sym a b = ground (arith, text_eq_iff a b, text_eq_iff b a)

module _ (key : User → Text) where
  pub UniqueBy-map :
      (f : User → User) (users : List User)
      → ((u : User) → key (f u) ≡ key u)
      → UniqueBy key users
      → UniqueBy key (map f users)
  unfolding UniqueBy
  UniqueBy-map f [] h d = tt
  UniqueBy-map f (u ∷ users) h d = (
    any-map (λ v. text_eq (key v) (key (f u))) f users (λ v. ap (λ k. text_eq k (key (f u))) (h v))
        ∙ rw (h u) d.0,
    UniqueBy-map f users h d.1,
  )

  pub UniqueBy-snoc :
      (users : List User) (u : User)
      → UniqueBy key users
      → any (λ v. text_eq (key v) (key u)) users ≡ false
      → UniqueBy key (users ++ u ∷ [])
  unfolding UniqueBy
  UniqueBy-snoc [] u d h = (refl, tt)
  UniqueBy-snoc (w ∷ users) u d h = (
    any-snoc (λ v. text_eq (key v) (key w)) users u
        ∙ ground (arith, d.0, h, text_eq_sym (key u) (key w)),
    UniqueBy-snoc users u d.1 (ground (arith, h)),
  )

  pub UniqueBy-keep :
      (p : User → Bool) (users : List User) → UniqueBy key users → UniqueBy key (keep p users)
  unfolding UniqueBy
  UniqueBy-keep p [] d = tt
  UniqueBy-keep p (u ∷ users) d = elim (Bool-cases (p u)) [
    | inl stays ↦
        rw stays
          (any-keep-false (λ v. text_eq (key v) (key u)) p users d.0, UniqueBy-keep p users d.1)
    | inr goes ↦ rw goes (UniqueBy-keep p users d.1)
  ]
