-- ===== src/Session/Admin.antt =====
-- What stopping and pausing a stream, modelled in Session/Control after
-- internal/mediaresolver/streams.go, do to sessions.
use goflix.Base.{
  ℕ, true, false, Option, none, some, Text, text_key, text_eq_iff, ◌≡◌, refl, ◌≢◌, inl, inr, arith,
  Bool-cases, Option-cases, is_some, ◌∙◌, any, ◌==◌, ==_iff,
}
use goflix.Base.Map.{Map, lookup, lookup-erase}
use goflix.Session.Cap.{find_live-insert}
use goflix.Session.Gate.{proxy_gate, proxy_gate_cases, passed, find_live_absent}
use goflix.Session.{ProxySession, Resolver, is_expired, find_session, find_live, update_session}
use goflix.Session.Control.{pause_stream, resume_stream, stop_stream}
use goflix.Session.Block.{Has, runs, implies}

-- Stopping, for every token.
stop_stream_cases :
    (r : Resolver) (token : Text)
    → ((stop_stream r token).1 ≡ is_some (lookup token r.sessions))
      × ((now : ℕ) → find_session (stop_stream r token).0 token now ≡ none)
      × ((s : ProxySession) (w : ℕ)
          → lookup token r.sessions ≡ some s
          → s.warmer ≡ some w
          → Has w (stop_stream r token).0.canceled)
      × ((j : Text) → token ≢ j → lookup j (stop_stream r token).0.sessions ≡ lookup j r.sessions)
unfolding stop_stream
stop_stream_cases r token = elim (Option-cases (lookup token r.sessions)) [
  | inl absent ↦
      rw (absent, stop_stream)
        (
          refl,
          λ now. find_live_absent r.sessions token now absent,
          λ s w f. absurd (ground (arith, f, absent)),
          λ j ne. refl,
        )
  | inr (s, found) ↦
      rw (found, stop_stream)
        (
          refl,
          λ now.
              find_live_absent _ token now
                (lookup-erase token token r.sessions ∙ ground (arith, text_eq_iff token token)),
          λ s' w f e.
              let same : s' ≡ s = ground (arith, f, found) in
              let e' : s.warmer ≡ some w = ground (arith, e, same) in
              rw e' (ground (arith, ==_iff w w)),
          λ j ne. lookup-erase token j r.sessions ∙ ground (arith, text_eq_iff token j),
        )
]

-- `StopStream` answers whether the token had a session. The session is gone for good, a pipeline
-- that it ran is cancelled, and another token is not affected.
pub stop_stream_lem :
    (r : Resolver) (token j : Text) (now w : ℕ)
    → token ≢ j
    → ((stop_stream r token).1 ≡ is_some (lookup token r.sessions))
      × (find_session (stop_stream r token).0 token now ≡ none)
      × (implies
            (runs w (lookup token r.sessions))
            (any (λ x. x == w) (stop_stream r token).0.canceled)
          ≡ true)
      × (lookup j (stop_stream r token).0.sessions ≡ lookup j r.sessions)
stop_stream_lem r token j now w ne =
    let known = stop_stream_cases r token in (known.0, known.1 now, ended, known.3 j ne)
  where
    ended :
        implies
          (runs w (lookup token r.sessions))
          (any (λ x. x == w) (stop_stream r token).0.canceled)
        ≡ true
    ended = elim (Option-cases (lookup token r.sessions)) [
      | inl absent ↦ rw absent refl
      | inr (s, found) ↦ elim (Bool-cases (runs w (some s))) [
        | inr other ↦ rw (found, other) refl
        | inl own ↦ ground (arith, found, own, (stop_stream_cases r token).2 s w found)
      ]
    ]

pause_found :
    (r : Resolver) (token : Text) (now : ℕ) (s : ProxySession)
    → find_session r token now ≡ some s
    → (pause_stream r token now ≡ (update_session r token (record s { paused = true }), true))
      × (resume_stream r token now ≡ (update_session r token (record s { paused = false }), true))
unfolding pause_stream resume_stream
pause_found r token now s h = (rw (h, pause_stream), rw (h, resume_stream))

pause_absent :
    (r : Resolver) (token : Text) (now : ℕ)
    → find_session r token now ≡ none
    → (pause_stream r token now ≡ (r, false)) × (resume_stream r token now ≡ (r, false))
unfolding pause_stream resume_stream
pause_absent r token now h = (rw (h, pause_stream), rw (h, resume_stream))

find_live-some :
    (m : Map Text ProxySession) (token : Text) (now : ℕ) (s : ProxySession)
    → find_live m token now ≡ some s
    → is_expired now s ≡ false
unfolding find_live
find_live-some m token now s h = ground arith

-- Pausing, by whether the session is there.
pause_stream_cases :
    (r : Resolver) (token : Text) (now : ℕ)
    → ((pause_stream r token now).1 ≡ is_some (find_session r token now))
      × ((s : ProxySession)
          → find_session r token now ≡ some s
          → ((ip : Text) → (proxy_gate (pause_stream r token now).0 token ip now).1 ≢ passed)
            × (find_session (resume_stream (pause_stream r token now).0 token now).0 token now
                ≡ some (record s { paused = false })))
      × ((j : Text) (later : ℕ)
          → token ≢ j
          → find_session (pause_stream r token now).0 j later ≡ find_session r j later)
pause_stream_cases r token now = elim (Option-cases (find_session r token now)) [
  | inl absent ↦
      rw ((pause_absent r token now absent).0)
        (rw absent, λ s f. absurd (ground (arith, f, absent)), λ j later ne. refl)
  | inr (s, found) ↦
      let paused = record s { paused = true } in
      let alive = find_live-some r.sessions token now s found in
      let held : find_session (update_session r token paused) token now ≡ some paused =
        find_live-insert r.sessions token token paused now
        ∙ ground (arith, text_eq_iff token token, alive) in
      rw ((pause_found r token now s found).0) (
        rw found,
        λ s' f. (
          λ ip e.
              let (x, here, _, free) =
                (proxy_gate_cases (update_session r token paused) token ip now).0.0 e in
              ground (arith, here, held, free),
          rw ((pause_found (update_session r token paused) token now paused held).1) (
              find_live-insert _ token token _ now
              ∙ ground (arith, text_eq_iff token token, alive, f, found)),
        ),
        λ j later ne.
            find_live-insert r.sessions token j paused later ∙ ground (arith, text_eq_iff token j),
      )
]

abbrev pub unpaused : Option ProxySession → Option ProxySession
unpaused none = none
unpaused (some s) = some (record s { paused = false })

-- Pausing answers whether the token has a live session. The token then passes the gate for no
-- address, and resuming it at the same moment gives back the session, if there is one, with the
-- hold cleared and everything else as it was. Another token is left alone.
pub pause_stream_lem :
    (r : Resolver) (token ip j : Text) (now later : ℕ)
    → token ≢ j
    → ((pause_stream r token now).1 ≡ is_some (find_session r token now))
      × ((proxy_gate (pause_stream r token now).0 token ip now).1 ≢ passed)
      × (find_session (resume_stream (pause_stream r token now).0 token now).0 token now
          ≡ unpaused (find_session r token now))
      × (find_session (pause_stream r token now).0 j later ≡ find_session r j later)
pause_stream_lem r token ip j now later ne =
    let known = pause_stream_cases r token now in
    elim (Option-cases (find_session r token now)) [
      | inl absent ↦
          let same = (pause_absent r token now absent).0 in
          (
            known.0,
            rw same (λ e.
                let (s, found, _, _) = (proxy_gate_cases r token ip now).0.0 e in
                ground (arith, found, absent)),
            rw same (rw ((pause_absent r token now absent).1) (absent ∙ (rw absent refl))),
            known.2 j later ne,
          )
      | inr (s, found) ↦
          let live = known.1 s found in
          (known.0, live.0 ip, live.1 ∙ (rw found refl), known.2 j later ne)
    ]
