-- ===== src/Session/Block.antt =====
-- What blocking an address, which is BlockIP of internal/mediaresolver/streams.go, does to the
-- sessions and at the gate.
use goflix.Base.{
  ℕ, Bool, true, false, List, [], ◌∷◌, ◌++◌, Option, none, some, Text, text_eq, text_key,
  text_eq_iff, if◌then◌else◌, ◌≡◌, refl, ◌≢◌, inl, inr, arith, Bool-cases, Option-cases, ◌∙◌, any,
  ◌==◌, ==_iff, ◌||◌, not,
}
use goflix.Base.Map.{Map, lookup, Distinct, lookup-insert, lookup-retain}
use goflix.Session.Gate.{ip_blocked, proxy_gate, proxy_gate_cases, passed}
use goflix.Session.{ProxySession, Resolver, warmers_of, warmer_list}
use goflix.Session.Control.{block_ip}

-- A pipeline is in a list.
abbrev pub Has : ℕ → List ℕ → Type 0
Has w ws = any (λ x. x == w) ws ≡ true

Has-append_left : (w : ℕ) (xs ys : List ℕ) → Has w xs → Has w (xs ++ ys)
Has-append_left w [] ys h = absurd (ground arith)
Has-append_left w (x ∷ xs) ys h = ground (arith, Has-append_left w xs ys)

Has-append_right : (w : ℕ) (xs ys : List ℕ) → Has w ys → Has w (xs ++ ys)
Has-append_right w [] ys h = h
Has-append_right w (x ∷ xs) ys h = ground (arith, Has-append_right w xs ys h)

-- The pipeline of a session that the test picks is collected.
warmers_of-Has :
    (p : Text → ProxySession → Bool) (m : Map Text ProxySession) (token : Text) (s : ProxySession)
    (w : ℕ)
    → lookup token m ≡ some s
    → p token s ≡ true
    → s.warmer ≡ some w
    → Has w (warmers_of p m)
unfolding lookup warmers_of
warmers_of-Has p [] token s w f h e = absurd (ground arith)
warmers_of-Has p ((tok, x) ∷ m) token s w f h e = elim (Bool-cases (text_eq tok token)) [
  | inl same ↦
      let e' : x ≡ s = ground (arith, f, same) in
      let k = (text_eq_iff tok token).0 same in
      let own : p tok x ≡ true = ground (arith, h, k, e') in
      let mine : x.warmer ≡ some w = ground (arith, e, e') in
      rw own (rw mine (ground (arith, ==_iff w w)))
  | inr other ↦
      let rest = warmers_of-Has p m token s w (ground (arith, f, other)) h e in
      elim (Bool-cases (p tok x)) [
        | inl picked ↦ rw picked (Has-append_right w (warmer_list x.warmer) _ rest)
        | inr left ↦ rw left rest
      ]
]

-- Whether a session runs the pipeline `w`
abbrev pub runs : ℕ → Option ProxySession → Bool
runs w none = false
runs w (some s) = elim s.warmer [ none ↦ false | some v ↦ v == w ]

-- The session, if it is one of the address
abbrev pub of_ip : Text → Option ProxySession → Option ProxySession
of_ip ip none = none
of_ip ip (some s) = if text_eq s.client_ip ip then some s else none

abbrev pub implies : Bool → Bool → Bool
implies a b = not a || b

-- Blocking, for every token and address.
block_ip_cases :
    (r : Resolver) (ip : Text) (now : ℕ)
    → Distinct r.sessions
    → ip ≢ []
    → ((token : Text) (later : ℕ) → (proxy_gate (block_ip r ip now) token ip later).1 ≢ passed)
      × ((token : Text)
          → lookup token (block_ip r ip now).sessions ≡ elim (lookup token r.sessions) [
            | none ↦ none
            | some s ↦ if text_eq s.client_ip ip then none else some s
          ])
      × ((token : Text) (s : ProxySession) (w : ℕ)
          → lookup token r.sessions ≡ some s
          → s.client_ip ≡ ip
          → s.warmer ≡ some w
          → Has w (block_ip r ip now).canceled)
      × ((j : Text) → ip ≢ j → ip_blocked (block_ip r ip now) j ≡ ip_blocked r j)
unfolding block_ip ip_blocked
block_ip_cases r ip now d ne = (
  λ token later e.
      let (_, _, open_to, _) = (proxy_gate_cases (block_ip r ip now) token ip later).0.0 e in
      ground (
        arith,
        open_to,
        text_eq_iff ip [],
        text_eq_iff ip ip,
        lookup-insert ip ip now r.blocked_ips,
      ),
  λ token. lookup-retain _ token r.sessions d ∙ (elim (Option-cases (lookup token r.sessions)) [
    | inl absent ↦ rw absent
    | inr (s, found) ↦
        rw found
          (elim (Bool-cases (text_eq s.client_ip ip)) [ inl own ↦ rw own | inr other ↦ rw other ])
  ]),
  λ token s w found own warm. Has-append_left w _ r.canceled (
      warmers_of-Has (λ _ s. text_eq s.client_ip ip) r.sessions token s w found
        ((text_eq_iff s.client_ip ip).1 own) warm),
  λ j other. ground (arith, text_eq_iff ip j, lookup-insert ip j now r.blocked_ips),
)

-- After an address is blocked it is refused at the gate with every token, by a request at any time;
-- no session of it is left, while those of other addresses stay as they were; if a session of it
-- ran a pipeline, that is cancelled; and exactly this address is blocked beside those that were.
pub block_ip_lem :
    (r : Resolver) (ip j token : Text) (now later w : ℕ)
    → Distinct r.sessions
    → ip ≢ []
    → ((proxy_gate (block_ip r ip now) token ip later).1 ≢ passed)
      × (lookup token (block_ip r ip now).sessions ≡ elim (lookup token r.sessions) [
        | none ↦ none
        | some s ↦ if text_eq s.client_ip ip then none else some s
      ])
      × (implies
            (runs w (of_ip ip (lookup token r.sessions)))
            (any (λ x. x == w) (block_ip r ip now).canceled)
          ≡ true)
      × (ip_blocked (block_ip r ip now) j ≡ text_eq ip j || ip_blocked r j)
block_ip_lem r ip j token now later w d ne =
    let known = block_ip_cases r ip now d ne in (known.0 token later, known.1 token, ended, blocks)
  where
    ended :
        implies
          (runs w (of_ip ip (lookup token r.sessions)))
          (any (λ x. x == w) (block_ip r ip now).canceled)
        ≡ true
    ended = elim (Option-cases (lookup token r.sessions)) [
      | inl absent ↦ rw absent refl
      | inr (s, found) ↦ elim (Bool-cases (runs w (of_ip ip (some s)))) [
        | inr other ↦ rw (found, other) refl
        | inl own ↦ ground (
          arith,
          found,
          own,
          (block_ip_cases r ip now d ne).2 token s w found,
          text_eq_iff s.client_ip ip,
        )
      ]
    ]

    blocks : ip_blocked (block_ip r ip now) j ≡ text_eq ip j || ip_blocked r j
    blocks =
        unfold block_ip ip_blocked in
        ground (
          arith,
          text_eq_iff ip j,
          text_eq_iff ip [],
          text_eq_iff j [],
          lookup-insert ip j now r.blocked_ips,
        )
