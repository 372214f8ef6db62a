-- ===== src/Session/Gate.antt =====
-- The gate of `Proxy` (internal/mediaresolver/proxy.go): what it does with a session before any
-- upstream work, for a request that is a GET or a HEAD.
use goflix.Base.{
  ℕ, ◌+◌, ◌≤◌, Bool, true, false, [], none, some, Text, codes, text_eq, text_key, text_eq_iff,
  if◌then◌else◌, ◌≡◌, refl, ◌≢◌, ◌↔◌, inl, inr, arith, Bool-cases, Option-cases, is_some, ◌∙◌,
  Option,
}
use goflix.Base.Map.{Map, lookup, insert, erase, lookup-erase}
use goflix.Session.Cap.{find_live-insert}
use goflix.Session.{ProxySession, Resolver, session_ttl, is_expired, find_session, find_live}

pub data GateResult : Type 0 where
  session_expired stream_blocked stream_paused passed : GateResult

-- `unknownIP`
abbrev pub unknown_ip : Text
unknown_ip = codes "unknown"

-- `ipBlocked`
unfoldable pub ip_blocked : Resolver → Text → Bool
ip_blocked r ip = if text_eq ip [] then false else is_some (lookup ip r.blocked_ips)

-- `streamTouch`
unfoldable pub stream_touch : ProxySession → Text → ℕ → ProxySession
stream_touch s ip now = record s {
  client_ip = if text_eq ip [] then unknown_ip else ip;
  last_seen_at = now;
}

-- The verdict on a session that is alive.
unfoldable pub gate_verdict : Bool → Bool → GateResult
gate_verdict blocked paused =
    if blocked then stream_blocked else if paused then stream_paused else passed

abbrev pub touched : Resolver → ProxySession → Text → ℕ → ProxySession
touched r s ip now = stream_touch (record s { expires_at = now + session_ttl r }) ip now

unfoldable pub proxy_gate : Resolver → Text → Text → ℕ → Resolver × GateResult
proxy_gate r token ip now = elim (lookup token r.sessions) [
  | none ↦ (r, session_expired)
  | some s ↦
      if is_expired now s
      then (record r { sessions = erase token r.sessions }, session_expired)
      else (
        record r { sessions = insert token (touched r s ip now) r.sessions },
        gate_verdict (ip_blocked r ip) s.paused,
      )
]

pub find_live_absent :
    (m : Map Text ProxySession) (token : Text) (now : ℕ)
    → lookup token m ≡ none
    → find_live m token now ≡ none
unfolding find_live
find_live_absent m token now h = ground arith

find_live_found :
    (m : Map Text ProxySession) (token : Text) (now : ℕ) (s : ProxySession)
    → lookup token m ≡ some s
    → find_live m token now ≡ (if is_expired now s then none else some s)
unfolding find_live
find_live_found m token now s h = ground arith

find_live-erase_ne :
    (m : Map Text ProxySession) (token j : Text) (now : ℕ)
    → token ≢ j
    → find_live (erase token m) j now ≡ find_live m j now
unfolding find_live
find_live-erase_ne m token j now ne = ground (arith, text_eq_iff token j, lookup-erase token j m)

find_live-erase :
    (m : Map Text ProxySession) (token j : Text) (now : ℕ)
    → find_live (erase token m) j now ≡ (if text_eq token j then none else find_live m j now)
unfolding find_live
find_live-erase m token j now = ground (arith, lookup-erase token j m)

module _ (r : Resolver) (token ip : Text) (now : ℕ) where
  gate_absent : lookup token r.sessions ≡ none → proxy_gate r token ip now ≡ (r, session_expired)
  unfolding proxy_gate
  gate_absent h = ground arith

  gate_dead :
      (s : ProxySession)
      → lookup token r.sessions ≡ some s
      → is_expired now s ≡ true
      → proxy_gate r token ip now
        ≡ (record r { sessions = erase token r.sessions }, session_expired)
  unfolding proxy_gate
  gate_dead s h e = rw (h, proxy_gate) (rw e)

  gate_alive :
      (s : ProxySession)
      → lookup token r.sessions ≡ some s
      → is_expired now s ≡ false
      → proxy_gate r token ip now ≡ (
        record r { sessions = insert token (touched r s ip now) r.sessions },
        gate_verdict (ip_blocked r ip) s.paused,
      )
  unfolding proxy_gate
  gate_alive s h e = rw (h, proxy_gate) (rw e)

gate_verdict_iff :
    (blocked paused : Bool)
    → (gate_verdict blocked paused ≡ passed) ↔ ((blocked ≡ false) × (paused ≡ false))
unfolding gate_verdict
gate_verdict_iff blocked paused = (λ e. ground arith, λ e. ground arith)

touched_live :
    (r : Resolver) (s : ProxySession) (ip : Text) (now later : ℕ)
    → later ≤ now + session_ttl r
    → is_expired later (touched r s ip now) ≡ false
unfolding stream_touch
touched_live r s ip now later h = ground arith

-- The gate by what it finds.
pub proxy_gate_cases :
    (r : Resolver) (token ip : Text) (now : ℕ)
    → (((proxy_gate r token ip now).1 ≡ passed) ↔ (
        (s : ProxySession) × (find_session r token now ≡ some s)
        × (ip_blocked r ip ≡ false)
        × (s.paused ≡ false)))
      × ((s : ProxySession) (later : ℕ)
          → find_session r token now ≡ some s
          → later ≤ now + session_ttl r
          → find_session (proxy_gate r token ip now).0 token later
            ≡ some (stream_touch (record s { expires_at = now + session_ttl r }) ip now))
      × ((j : Text) (later : ℕ)
          → token ≢ j
          → find_session (proxy_gate r token ip now).0 j later ≡ find_session r j later)
proxy_gate_cases r token ip now = elim (Option-cases (lookup token r.sessions)) [
  | inl absent ↦
      let nothing = find_live_absent r.sessions token now absent in
      rw (gate_absent r token ip now absent) (
        (λ e. absurd (ground (arith, e)), λ (s, f, _, _). absurd (ground (arith, f, nothing))),
        λ s later f h. absurd (ground (arith, f, nothing)),
        λ j later ne. refl,
      )
  | inr (s, found) ↦
      let finds = find_live_found r.sessions token now s found in
      elim (Bool-cases (is_expired now s)) [
        | inl dead ↦
            let nothing : find_session r token now ≡ none = finds ∙ (rw dead) in
            rw (gate_dead r token ip now s found dead) (
              (
                λ e. absurd (ground (arith, e)),
                λ (s', f, _, _). absurd (ground (arith, f, nothing)),
              ),
              λ s' later f h. absurd (ground (arith, f, nothing)),
              λ j later ne. find_live-erase_ne r.sessions token j later ne,
            )
        | inr live ↦
            let here : find_session r token now ≡ some s = finds ∙ (rw live) in
            rw (gate_alive r token ip now s found live) (
              (
                λ e.
                    let v = (gate_verdict_iff (ip_blocked r ip) s.paused).0 e in
                    (s, here, v.0, v.1),
                λ (s', f, b, p).
                    (gate_verdict_iff (ip_blocked r ip) s.paused).1 (b, ground (arith, f, here, p)),
              ),
              λ s' later f h.
                  find_live-insert r.sessions token token _ later
                  ∙ ground
                      (arith, text_eq_iff token token, touched_live r s ip now later h, f, here),
              λ j later ne.
                  find_live-insert r.sessions token j _ later ∙ ground (arith, text_eq_iff token j),
            )
      ]
]

-- What `findSession` finds of a session at a later time
abbrev pub live_at : ℕ → ProxySession → Option ProxySession
live_at later s = if is_expired later s then none else some s

-- What the gate leaves under its token, from what it found there.
abbrev pub after_gate : Resolver → Text → ℕ → ℕ → Option ProxySession → Option ProxySession
after_gate r ip now later none = none
after_gate r ip now later (some s) = live_at later (touched r s ip now)

-- A request passes the gate exactly when its token has a session that has not expired, its address
-- is not blocked and the stream is not paused. A session found alive has its whole lifetime again
-- and the request's address and time, also when the request is refused; a token without one finds
-- none later either; and no other token is affected.
pub proxy_gate_lem :
    (r : Resolver) (token ip : Text) (now : ℕ) (j : Text) (later : ℕ)
    → (((proxy_gate r token ip now).1 ≡ passed) ↔ (
        (s : ProxySession) × (find_session r token now ≡ some s)
        × (ip_blocked r ip ≡ false)
        × (s.paused ≡ false)))
      × (find_session (proxy_gate r token ip now).0 j later ≡ (
          if text_eq token j
          then after_gate r ip now later (find_session r token now)
          else find_session r j later))
proxy_gate_lem r token ip now j later = (
  (proxy_gate_cases r token ip now).0,
  elim (Option-cases (lookup token r.sessions)) [
    | inl absent ↦ rw (gate_absent r token ip now absent) (
        ground (
          arith,
          text_eq_iff token j,
          find_live_absent r.sessions token now absent,
          find_live_absent r.sessions token later absent,
        ))
    | inr (s, found) ↦
        let finds = find_live_found r.sessions token now s found in
        elim (Bool-cases (is_expired now s)) [
          | inl dead ↦
              let nothing : find_session r token now ≡ none = finds ∙ (rw dead) in
              rw (gate_dead r token ip now s found dead, nothing)
                (find_live-erase r.sessions token j later)
          | inr live ↦
              let here : find_session r token now ≡ some s = finds ∙ (rw live) in
              rw (gate_alive r token ip now s found live, here)
                (find_live-insert r.sessions token j (touched r s ip now) later)
        ]
  ],
)
