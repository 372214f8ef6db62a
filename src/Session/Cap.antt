-- ===== src/Session/Cap.antt =====
-- The cap on sessions, and what `newSession` leaves visible.
use goflix.Base.{
  ℕ, ◌≤◌, ◌<◌, Bool, true, false, not, Option, none, some, Text, text_eq, text_key, text_eq_iff,
  length, leb, if◌then◌else◌, ◌≡◌, refl, ◌≢◌, ◌↔◌, inl, inr, arith, Bool-cases, is_some, ◌∙◌, ◌&&◌,
}
use goflix.Base.Map.{
  Map, lookup, insert, retain, Distinct, lookup-insert, lookup-retain, retain-Distinct,
  insert-Distinct, length-insert, length-retain-le,
}
use goflix.Session.{
  ProxySession, Resolver, max_sessions, is_expired, Header, new_session, fresh_session,
  find_session, find_live, admit_session, created, refused, resolver_closed, Created,
}

-- Tokens are distinct, and there are no more sessions than the cap allows.
pub record IsValid (r : Resolver) : Type 0 where
  pub distinct : Distinct r.sessions
  pub capped : length r.sessions ≤ max_sessions r

-- The sessions that a sweep at `now` leaves.
abbrev pub live_sessions : Resolver → ℕ → Map Text ProxySession
live_sessions r now = retain (λ _ s. not (is_expired now s)) r.sessions

module _ (r : Resolver) (token agent req_key source : Text) (headers : Header)
    (allowed : Map Text Bool) (now : ℕ) where
  new_session_shut :
      r.closed ≡ true
      → new_session r (some token) agent req_key source headers allowed now
        ≡ (r, refused resolver_closed)
  unfolding new_session
  new_session_shut h = ground arith

  new_session_open :
      r.closed ≡ false
      → new_session r (some token) agent req_key source headers allowed now
        ≡ admit_session r token agent req_key source headers allowed now
  unfolding new_session
  new_session_open h = ground arith

  admit_session-IsValid :
      IsValid r → IsValid (admit_session r token agent req_key source headers allowed now).0
  unfolding admit_session
  admit_session-IsValid v =
      let live = live_sessions r now in
      let d = retain-Distinct (λ _ s. not (is_expired now s)) r.sessions v.distinct in
      let few = length-retain-le (λ _ s. not (is_expired now s)) r.sessions in
      elim (Bool-cases (leb (max_sessions r) (length live))) [
        | inl full ↦ rw full (record { distinct = d; capped = omega (arith, few, v.capped) })
        | inr room ↦ rw room (record {
          distinct = insert-Distinct token _ live d;
          capped = rw length-insert (elim (Bool-cases (is_some (lookup token live))) [
            | inl old ↦ rw old (omega (arith, few, v.capped))
            | inr new ↦ rw new (ground (arith, room))
          ]);
        })
      ]

-- `newSession` keeps the resolver valid, whatever it is asked for: the cap is never passed.
pub new_session-IsValid :
    (r : Resolver) (random : Option Text) (agent req_key source : Text) (headers : Header)
    (allowed : Map Text Bool) (now : ℕ)
    → IsValid r
    → IsValid (new_session r random agent req_key source headers allowed now).0
new_session-IsValid r none agent req_key source headers allowed now v = unfold new_session in v
new_session-IsValid r (some token) agent req_key source headers allowed now v =
    elim (Bool-cases r.closed) [
      | inl shut ↦ rw (new_session_shut r token agent req_key source headers allowed now shut) v
      | inr running ↦
          rw (new_session_open r token agent req_key source headers allowed now running)
            (admit_session-IsValid r token agent req_key source headers allowed now v)
    ]

-- A sweep of what has expired is invisible to `findSession`.
pub find_live-live :
    (m : Map Text ProxySession) (token : Text) (now : ℕ)
    → Distinct m
    → find_live (retain (λ _ s. not (is_expired now s)) m) token now ≡ find_live m token now
unfolding find_live
find_live-live m token now d =
    ground
      (arith, lookup-retain (λ (_ : Text) (s : ProxySession). not (is_expired now s)) token m d)

pub find_live-insert :
    (m : Map Text ProxySession) (token j : Text) (s : ProxySession) (now : ℕ)
    → find_live (insert token s m) j now
      ≡ (if text_eq token j then (if is_expired now s then none else some s) else find_live m j now)
unfolding find_live
find_live-insert m token j s now = ground (arith, lookup-insert token j s m)

fresh_session-live :
    (r : Resolver) (agent req_key source : Text) (headers : Header) (allowed : Map Text Bool)
    (now : ℕ)
    → is_expired now (fresh_session r agent req_key source headers allowed now) ≡ false
unfolding fresh_session
fresh_session-live r agent req_key source headers allowed now = ground arith

-- `newSession` by its result.
new_session_cases :
    (r : Resolver) (token agent req_key source : Text) (headers : Header) (allowed : Map Text Bool)
    (now : ℕ)
    → Distinct r.sessions
    → (((new_session r (some token) agent req_key source headers allowed now).1 ≡ created token)
        ↔ ((r.closed ≡ false) × (length (live_sessions r now) < max_sessions r)))
      × ((new_session r (some token) agent req_key source headers allowed now).1 ≡ created token
          → find_session
              (new_session r (some token) agent req_key source headers allowed now).0
              token
              now
            ≡ some (fresh_session r agent req_key source headers allowed now))
      × ((j : Text)
          → token ≢ j
          → find_session
              (new_session r (some token) agent req_key source headers allowed now).0
              j
              now
            ≡ find_session r j now)
new_session_cases r token agent req_key source headers allowed now d = elim (Bool-cases r.closed) [
  | inl shut ↦ rw (new_session_shut r token agent req_key source headers allowed now shut) (
    (λ e. absurd (ground (arith, e)), λ e. absurd (ground (arith, e.0, shut))),
    λ e. absurd (ground (arith, e)),
    λ j ne. refl,
  )
  | inr running ↦ rw (new_session_open r token agent req_key source headers allowed now running) (
      unfold admit_session in
      elim (Bool-cases (leb (max_sessions r) (length (live_sessions r now)))) [
        | inl full ↦ rw full (
          (λ e. absurd (ground (arith, e)), λ e. absurd (ground (arith, e.1, full))),
          λ e. absurd (ground (arith, e)),
          λ j ne. find_live-live r.sessions j now d,
        )
        | inr room ↦ rw room (
          (λ e. (running, ground (arith, room)), λ e. refl),
          λ e.
              find_live-insert (live_sessions r now) token token _ now
              ∙ ground (
                arith,
                text_eq_iff token token,
                fresh_session-live r agent req_key source headers allowed now,
              ),
          λ j ne.
              find_live-insert (live_sessions r now) token j _ now
              ∙ ground (arith, text_eq_iff token j, find_live-live r.sessions j now d),
        )
      ])
]

abbrev pub is_created : Created → Bool
is_created (created token) = true
is_created (refused e) = false

-- With a token at hand, `newSession` creates a session exactly when the resolver is open and fewer
-- sessions than the cap have not expired. The new session is then found under its token, and every
-- other token, and every token if none was created, finds what it found before.
pub new_session_lem :
    (r : Resolver) (token agent req_key source : Text) (headers : Header) (allowed : Map Text Bool)
    (now : ℕ) (j : Text)
    → Distinct r.sessions
    → (((new_session r (some token) agent req_key source headers allowed now).1 ≡ created token)
        ↔ ((r.closed ≡ false) × (length (live_sessions r now) < max_sessions r)))
      × (find_session (new_session r (some token) agent req_key source headers allowed now).0 j now
          ≡ (if is_created (new_session r (some token) agent req_key source headers allowed now).1
                && text_eq token j
              then some (fresh_session r agent req_key source headers allowed now)
              else find_session r j now))
new_session_lem r token agent req_key source headers allowed now j d = (
  (new_session_cases r token agent req_key source headers allowed now d).0,
  elim (Bool-cases r.closed) [
    | inl shut ↦ rw (new_session_shut r token agent req_key source headers allowed now shut) refl
    | inr running ↦ rw (new_session_open r token agent req_key source headers allowed now running) (
        unfold admit_session in
        elim (Bool-cases (leb (max_sessions r) (length (live_sessions r now)))) [
          | inl full ↦ rw full (find_live-live r.sessions j now d)
          | inr room ↦ rw room (
              find_live-insert (live_sessions r now) token j _ now
              ∙ ground (
                arith,
                fresh_session-live r agent req_key source headers allowed now,
                find_live-live r.sessions j now d,
              ))
        ])
  ],
)
