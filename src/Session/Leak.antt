-- ===== src/Session/Leak.antt =====
-- What becomes of the read-ahead of a session that the gate of `Proxy` finds expired.
use goflix.Base.{
  ℕ, ◌<◌, true, false, List, [], ◌∷◌, some, Text, text_eq, text_key, ◌∙◌, ◌≡◌, inl, inr, arith,
  Bool-cases,
}
use goflix.Base.Map.{Map, lookup, erase}
use goflix.Session.{
  ProxySession, Resolver, is_expired, warmer_list, warmers_of, drop_sessions, sweep_expired,
}
use goflix.Session.Gate.{proxy_gate}
use goflix.Session.Events.{
  is_listed, is_run, Event, happen_all, IsLost, is_listed-append, happen_all-IsLost,
}

-- The sweep cancels the pipeline of an expired session.
swept :
    (w : ℕ) (token : Text) (now : ℕ) (s : ProxySession) (m : Map Text ProxySession)
    → lookup token m ≡ some s
    → is_expired now s ≡ true
    → s.warmer ≡ some w
    → is_listed w (warmers_of (λ _ t. is_expired now t) m) ≡ true
unfolding lookup warmers_of
swept w token now s [] found dead runs = absurd (ground (arith, found))
swept w token now s ((tok, t) ∷ m) found dead runs =
    let joined =
      is_listed-append w (warmer_list t.warmer) (warmers_of (λ _ u. is_expired now u) m) in
    elim (Bool-cases (text_eq tok token)) [
      | inl here ↦
          let same : t ≡ s = ground (arith, here, found) in
          let old : is_expired now t ≡ true = rw same dead in
          let mine : is_listed w (warmer_list t.warmer) ≡ true = rw same (rw runs (ground arith)) in
          rw (old, warmers_of) (joined ∙ ground (arith, mine))
      | inr there ↦
          let later = swept w token now s m (ground (arith, there, found)) dead runs in
          elim (Bool-cases (is_expired now t)) [
            | inl old ↦ rw (old, warmers_of) (joined ∙ ground (arith, later))
            | inr young ↦ rw (young, warmers_of) later
          ]
    ]

-- The gate drops an expired session without cancelling its read-ahead. Where that session alone runs
-- the pipeline, which was started and not cancelled before, nothing that happens to the sessions from
-- then on, in any number and order, ever cancels it: sweeps, requests, new sessions and pipelines,
-- stops, blocks, and the close of the resolver. A sweep in place of the request would have cancelled
-- it.
pub proxy_gate_leak :
    (r : Resolver) (token ip : Text) (now : ℕ) (s : ProxySession) (w : ℕ) (es : List Event)
    → lookup token r.sessions ≡ some s
    → is_expired now s ≡ true
    → s.warmer ≡ some w
    → is_run w (erase token r.sessions) ≡ false
    → is_listed w r.canceled ≡ false
    → w < r.started
    → (is_listed w (happen_all es (proxy_gate r token ip now).0).canceled ≡ false)
      × (is_listed w (sweep_expired r now).canceled ≡ true)
unfolding proxy_gate sweep_expired drop_sessions
proxy_gate_leak r token ip now s w es found dead runs alone alive begun =
    let lost : IsLost w (proxy_gate r token ip now).0 =
      rw (found, proxy_gate)
        (rw dead (record { begun = begun; unheld = alone; running = alive })) in
    (
      (happen_all-IsLost w es (proxy_gate r token ip now).0 lost).running,
      is_listed-append w (warmers_of (λ _ t. is_expired now t) r.sessions) r.canceled
          ∙ ground (arith, swept w token now s r.sessions found dead runs),
    )
