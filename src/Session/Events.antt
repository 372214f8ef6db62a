-- ===== src/Session/Events.antt =====
-- What happens to the sessions of a resolver, in any order, and that none of it cancels a pipeline
-- that no session runs.
use goflix.Base.{
  ℕ, ◌<◌, Bool, true, false, not, List, [], ◌∷◌, ◌++◌, Option, none, some, Text, text_eq, text_key,
  any, leb, length, is_some, ◌∙◌, ◌||◌, ◌==◌, ◌≡◌, refl, inl, inr, arith, Bool-cases, Option-cases,
  if◌then◌else◌,
}
use goflix.Base.Map.{Map, lookup, insert, erase, retain}
use goflix.Session.{
  ProxySession, Resolver, Header, Created, refused, resolver_closed, is_expired, warmer_list,
  warmers_of, drop_sessions, sweep_expired, new_session, admit_session, max_sessions, fresh_session,
  close, ensure_warmer,
}
use goflix.Session.Control.{stop_stream, block_ip}
use goflix.Session.Gate.{proxy_gate, touched, stream_touch}

-- A pipeline is in a list.
abbrev pub is_listed : ℕ → List ℕ → Bool
is_listed w ws = any (λ v. v == w) ws

-- A session of the map runs the pipeline.
abbrev pub is_run : ℕ → Map Text ProxySession → Bool
is_run w m = any (λ e. is_listed w (warmer_list e.1.warmer)) m

-- What the server does to its sessions after a request
pub data Event : Type 0 where
  sweep : ℕ → Event
  proxied : Text → Text → ℕ → Event
  session_opened : Option Text → Text → Text → Text → Header → Map Text Bool → ℕ → Event
  warmed : Text → Event
  stopped : Text → Event
  blocked : Text → ℕ → Event
  shut_down : Event

unfoldable pub happen : Event → Resolver → Resolver
happen (sweep now) r = sweep_expired r now
happen (proxied token ip now) r = (proxy_gate r token ip now).0
happen (session_opened token agent key source headers allowed now) r =
    (new_session r token agent key source headers allowed now).0
happen (warmed token) r = ensure_warmer r token
happen (stopped token) r = (stop_stream r token).0
happen (blocked ip now) r = block_ip r ip now
happen shut_down r = close r

unfoldable pub happen_all : List Event → Resolver → Resolver
happen_all [] r = r
happen_all (e ∷ es) r = happen_all es (happen e r)

-- A pipeline that was started, that no session runs, and that was not cancelled.
pub record IsLost (w : ℕ) (r : Resolver) : Type 0 where
  pub begun : w < r.started
  pub unheld : is_run w r.sessions ≡ false
  pub running : is_listed w r.canceled ≡ false

pub is_listed-append :
    (w : ℕ) (xs ys : List ℕ) → is_listed w (xs ++ ys) ≡ is_listed w xs || is_listed w ys
is_listed-append w [] ys = refl
is_listed-append w (x ∷ xs) ys = ground (arith, is_listed-append w xs ys)

module _ (w : ℕ) where
  warmers_of-unheld :
      (p : Text → ProxySession → Bool) (m : Map Text ProxySession)
      → is_run w m ≡ false
      → is_listed w (warmers_of p m) ≡ false
  unfolding warmers_of
  warmers_of-unheld p [] h = refl
  warmers_of-unheld p ((tok, s) ∷ m) h =
      ground (
        arith,
        h,
        is_listed-append w (warmer_list s.warmer) (warmers_of p m),
        warmers_of-unheld p m,
      )

  retain-unheld :
      (p : Text → ProxySession → Bool) (m : Map Text ProxySession)
      → is_run w m ≡ false
      → is_run w (retain p m) ≡ false
  unfolding retain
  retain-unheld p [] h = refl
  retain-unheld p ((tok, s) ∷ m) h = ground (arith, h, retain-unheld p m)

  erase-unheld :
      (token : Text) (m : Map Text ProxySession)
      → is_run w m ≡ false
      → is_run w (erase token m) ≡ false
  unfolding erase
  erase-unheld token [] h = refl
  erase-unheld token ((tok, s) ∷ m) h = ground (arith, h, erase-unheld token m)

  insert-unheld :
      (token : Text) (s : ProxySession) (m : Map Text ProxySession)
      → is_listed w (warmer_list s.warmer) ≡ false
      → is_run w m ≡ false
      → is_run w (insert token s m) ≡ false
  unfolding insert
  insert-unheld token s [] k h = ground (arith, k)
  insert-unheld token s ((tok, t) ∷ m) k h = ground (arith, k, h, insert-unheld token s m)

  lookup-unheld :
      (token : Text) (m : Map Text ProxySession) (s : ProxySession)
      → is_run w m ≡ false
      → lookup token m ≡ some s
      → is_listed w (warmer_list s.warmer) ≡ false
  unfolding lookup
  lookup-unheld token [] s h e = absurd (ground (arith, e))
  lookup-unheld token ((tok, t) ∷ m) s h e = elim (Bool-cases (text_eq tok token)) [
    | inl here ↦ let same : t ≡ s = ground (arith, here, e) in rw (← same) (ground (arith, h))
    | inr there ↦ lookup-unheld token m s (ground (arith, h)) (ground (arith, there, e))
  ]

  drop_sessions-IsLost :
      (p : Text → ProxySession → Bool) (r : Resolver) → IsLost w r → IsLost w (drop_sessions p r)
  unfolding drop_sessions
  drop_sessions-IsLost p r h = record {
    begun = h.begun;
    unheld = retain-unheld (λ tok s. not (p tok s)) r.sessions h.unheld;
    running =
        is_listed-append w (warmers_of p r.sessions) r.canceled
        ∙ ground (arith, warmers_of-unheld p r.sessions h.unheld, h.running);
  }

  proxy_gate-IsLost :
      (token ip : Text) (now : ℕ) (r : Resolver)
      → IsLost w r
      → IsLost w (proxy_gate r token ip now).0
  unfolding proxy_gate stream_touch
  proxy_gate-IsLost token ip now r h = elim (Option-cases (lookup token r.sessions)) [
    | inl absent ↦ rw (absent, proxy_gate) h
    | inr (s, found) ↦ elim (Bool-cases (is_expired now s)) [
      | inl dead ↦
          rw (found, proxy_gate)
            (rw dead (record {
              begun = h.begun;
              unheld = erase-unheld token r.sessions h.unheld;
              running = h.running;
            }))
      | inr live ↦
          rw (found, proxy_gate)
            (rw live (record {
              begun = h.begun;
              unheld =
                  insert-unheld token (touched r s ip now) r.sessions
                    (lookup-unheld token r.sessions s h.unheld found) h.unheld;
              running = h.running;
            }))
    ]
  ]

  admit_session-IsLost :
      (token agent key source : Text) (headers : Header) (allowed : Map Text Bool) (now : ℕ)
      (r : Resolver)
      → IsLost w r
      → IsLost w (admit_session r token agent key source headers allowed now).0
  unfolding admit_session
  admit_session-IsLost token agent key source headers allowed now r h =
      let dropped = drop_sessions (λ _ s. is_expired now s) r in
      let d = drop_sessions-IsLost (λ _ s. is_expired now s) r h in
      elim (Bool-cases (leb (max_sessions r) (length dropped.sessions))) [
        | inl full ↦
            rw (full, admit_session)
              (record { begun = h.begun; unheld = d.unheld; running = h.running })
        | inr room ↦
            rw (room, admit_session)
              (record {
                begun = h.begun;
                unheld =
                    insert-unheld token (fresh_session r agent key source headers allowed now)
                      dropped.sessions (unfold fresh_session in refl) d.unheld;
                running = d.running;
              })
      ]

  ensure_warmer-IsLost :
      (token : Text) (r : Resolver) → IsLost w r → IsLost w (ensure_warmer r token)
  unfolding ensure_warmer
  ensure_warmer-IsLost token r h = elim (Option-cases (lookup token r.sessions)) [
    | inl absent ↦ rw (absent, ensure_warmer) h
    | inr (s, found) ↦ elim (Bool-cases (is_some s.warmer)) [
      | inl has ↦ rw (found, ensure_warmer) (rw has h)
      | inr free ↦ elim (Bool-cases r.closed) [
        | inl over ↦
            rw (found, ensure_warmer)
              (rw (free, over) (record { begun = h.begun; unheld = h.unheld; running = h.running }))
        | inr active ↦
            rw (found, ensure_warmer)
              (rw (free, active)
                (record {
                  begun = omega (arith, h.begun);
                  unheld =
                      insert-unheld token (record s { warmer = some r.started }) r.sessions
                        (ground (arith, h.begun)) h.unheld;
                  running = h.running;
                }))
      ]
    ]
  ]

  stop_stream-IsLost : (token : Text) (r : Resolver) → IsLost w r → IsLost w (stop_stream r token).0
  unfolding stop_stream
  stop_stream-IsLost token r h = elim (Option-cases (lookup token r.sessions)) [
    | inl absent ↦ rw (absent, stop_stream) h
    | inr (s, found) ↦
        rw (found, stop_stream)
          (record {
            begun = h.begun;
            unheld = erase-unheld token r.sessions h.unheld;
            running =
                is_listed-append w (warmer_list s.warmer) r.canceled
                ∙ ground (arith, lookup-unheld token r.sessions s h.unheld found, h.running);
          })
  ]

  close-IsLost : (r : Resolver) → IsLost w r → IsLost w (close r)
  unfolding close
  close-IsLost r h = elim (Bool-cases r.closed) [
    | inl already ↦
        rw (already, close) (record { begun = h.begun; unheld = h.unheld; running = h.running })
    | inr opened ↦
        rw (opened, close)
          (record {
            begun = h.begun;
            unheld = refl;
            running =
                is_listed-append w (warmers_of (λ _ _. true) r.sessions) r.canceled
                ∙ ground (arith, warmers_of-unheld (λ _ _. true) r.sessions h.unheld, h.running);
          })
  ]

  branch-IsLost :
      (b : Bool) (x y : Resolver × Created)
      → IsLost w x.0
      → IsLost w y.0
      → IsLost w (if b then x else y).0
  branch-IsLost true x y h k = h
  branch-IsLost false x y h k = k

  happen-IsLost : (e : Event) (r : Resolver) → IsLost w r → IsLost w (happen e r)
  unfolding happen sweep_expired new_session block_ip
  happen-IsLost (sweep now) r h = drop_sessions-IsLost (λ _ s. is_expired now s) r h
  happen-IsLost (proxied token ip now) r h = proxy_gate-IsLost token ip now r h
  happen-IsLost (session_opened none agent key source headers allowed now) r h = h
  happen-IsLost (session_opened (some token) agent key source headers allowed now) r h =
      branch-IsLost r.closed (r, refused resolver_closed)
        (admit_session r token agent key source headers allowed now) h
        (admit_session-IsLost token agent key source headers allowed now r h)
  happen-IsLost (warmed token) r h = ensure_warmer-IsLost token r h
  happen-IsLost (stopped token) r h = stop_stream-IsLost token r h
  happen-IsLost (blocked ip now) r h =
      drop_sessions-IsLost (λ _ s. text_eq s.client_ip ip)
        (record r { blocked_ips = insert ip now r.blocked_ips })
        (record { begun = h.begun; unheld = h.unheld; running = h.running })
  happen-IsLost shut_down r h = close-IsLost r h

  pub happen_all-IsLost : (es : List Event) (r : Resolver) → IsLost w r → IsLost w (happen_all es r)
  unfolding happen_all
  happen_all-IsLost [] r h = h
  happen_all-IsLost (e ∷ es) r h = happen_all-IsLost es (happen e r) (happen-IsLost e r h)
