-- ===== src/Upstream/Retry/Final.antt =====
-- What `doWithRetry` returns.
use goflix.Base.{
  ℕ, zero, suc, ◌+◌, ◌≤◌, ◌<◌, Bool, ◌&&◌, is_some, true, false, not, ◌||◌, none, some, leb, ◌≡◌,
  refl, ◌⊎◌, inl, inr, arith, Bool-cases,
}
use goflix.Upstream.Throttle.{HostThrottle}
use goflix.Upstream.Retry.{
  Response, Failure, Attempt, answered, broken, World, Trace, retryable_upstream_status, retry_loop,
  do_with_retry, upstream_attempts, is_canceled, Outcome,
}

-- A response is returned without an error, and is final: it is not one to retry, or it is the
-- third. An error is returned without a response. Neither comes only from a context that was done.
abbrev pub IsFinal : World → Trace → Type 0
IsFinal w t =
    (t.attempts ≤ upstream_attempts)
    × ((r : Response)
        → t.outcome.response ≡ some r
        → (w.attempt t.attempts ≡ answered r)
          × (t.outcome.error ≡ none)
          × ((retryable_upstream_status r.status ≡ false) ⊎ (t.attempts ≡ upstream_attempts)))
    × (t.outcome.response ≡ none
        → t.outcome.error ≡ none
        → (w.gone t.attempts ≡ true)
          × ((r : Response) × (w.attempt t.attempts ≡ answered r)
              × (retryable_upstream_status r.status ≡ true)))

Attempt-cases :
    (a : Attempt) → ((r : Response) × (a ≡ answered r)) ⊎ ((e : Failure) × (a ≡ broken e))
Attempt-cases (answered r) = inl (r, refl)
Attempt-cases (broken e) = inr (e, refl)

-- The loop of the function returns, whatever the host answers.
retry_loop-IsFinal :
    (w : World) (fuel n : ℕ) (th : HostThrottle) (slept : ℕ)
    → 0 < n
    → n ≤ upstream_attempts
    → upstream_attempts < n + fuel
    → (t : Trace) × (retry_loop w fuel n th slept ≡ some t) × IsFinal w t
unfolding retry_loop
retry_loop-IsFinal w zero n th slept p h k = absurd (omega arith)
retry_loop-IsFinal w (suc fuel) n th slept p h k = elim (Attempt-cases (w.attempt n)) [
  | inl (r, e) ↦
      elim (Bool-cases (not (retryable_upstream_status r.status) || leb upstream_attempts n)) [
        | inl done ↦
            rw (e, retry_loop)
              (rw done (
                _,
                refl,
                (
                  h,
                  λ r' q. (ground (arith, e, q), refl, ground (arith, q, done)),
                  λ q. absurd (ground arith),
                ),
              ))
        | inr more ↦
            rw (e, retry_loop)
              (rw more (elim (Bool-cases (w.gone n)) [
                | inl dead ↦ rw dead (
                  _,
                  refl,
                  (h, λ r' q. absurd (ground arith), λ _ _. (dead, (r, e, ground (arith, more)))),
                )
                | inr alive ↦ rw alive (elim (Bool-cases (w.cut_short n)) [
                  | inl cut ↦
                      rw cut
                        (_, refl, (h, λ r' q. absurd (ground arith), λ _ q. absurd (ground arith)))
                  | inr waited ↦ rw waited (
                      retry_loop-IsFinal w fuel (suc n) _ _ (omega arith) (ground (arith, more))
                        (omega arith))
                ])
              ]))
      ]
  | inr (err, e) ↦ elim (Bool-cases (is_canceled err || w.gone n)) [
    | inl stop ↦
        rw (e, retry_loop)
          (rw stop (_, refl, (h, λ r' q. absurd (ground arith), λ _ q. absurd (ground arith))))
    | inr alive ↦ elim (Bool-cases (leb upstream_attempts n)) [
      | inl last ↦
          rw (e, retry_loop)
            (rw alive
              (rw last (_, refl, (h, λ r' q. absurd (ground arith), λ _ q. absurd (ground arith)))))
      | inr more ↦
          rw (e, retry_loop)
            (rw alive (
              rw more (elim (Bool-cases (w.cut_short n)) [
                | inl cut ↦
                    rw cut
                      (_, refl, (h, λ r' q. absurd (ground arith), λ _ q. absurd (ground arith)))
                | inr waited ↦ rw waited (
                    retry_loop-IsFinal w fuel (suc n) _ _ (omega arith) (ground (arith, more))
                      (omega arith))
              ])))
    ]
  ]
]

-- `doWithRetry` ends after at most three attempts. A response comes without an error, from the last
-- attempt, and either it is not one to retry or it is the third. Both results are nil only if the
-- last attempt was answered by a status to retry and the caller's context was done by then.
pub do_with_retry-IsFinal :
    (w : World) (th : HostThrottle) → (t : Trace) × (do_with_retry w th ≡ some t) × IsFinal w t
unfolding do_with_retry
do_with_retry-IsFinal w th =
    retry_loop-IsFinal w upstream_attempts 1 th 0 (omega arith) (omega arith) (omega arith)

abbrev is_retried : Attempt → Bool
is_retried (answered r) = retryable_upstream_status r.status
is_retried (broken e) = false

abbrev is_transient : Attempt → Bool
is_transient (answered r) = retryable_upstream_status r.status
is_transient (broken e) = not (is_canceled e)

-- Attempt `n` is answered by a status to retry, and the caller's context is done by then.
abbrev pub is_silent : World → ℕ → Bool
is_silent w n = is_retried (w.attempt n) && w.gone n

-- Attempt `n` fails in a way that is tried again, and the context lasts through the sleep behind it.
abbrev pub goes_on : World → ℕ → Bool
goes_on w n = is_transient (w.attempt n) && (not (w.gone n) && not (w.cut_short n))

abbrev pub is_nil : Outcome → Bool
is_nil o = not (is_some o.response || is_some o.error)

-- The loop ends in a trace whose two results are nil if `b` says so.
abbrev Ends : World → ℕ → ℕ → Bool → Type 0
Ends w fuel n b =
    (th : HostThrottle) (slept : ℕ)
    → (t : Trace) × (retry_loop w fuel n th slept ≡ some t) × (is_nil t.outcome ≡ b)

module _ (w : World) (fuel n : ℕ) where
  retry_loop_last : upstream_attempts ≤ n → Ends w (suc fuel) n false
  unfolding retry_loop
  retry_loop_last last th slept = elim (Attempt-cases (w.attempt n)) [
    | inl (r, e) ↦
        let third : leb upstream_attempts n ≡ true = ground (arith, last) in
        let done : (not (retryable_upstream_status r.status) || leb upstream_attempts n) ≡ true =
          ground (arith, third) in
        rw (e, retry_loop) (rw done (_, refl, refl))
    | inr (err, e) ↦ elim (Bool-cases (is_canceled err || w.gone n)) [
      | inl stop ↦ rw (e, retry_loop) (rw stop (_, refl, refl))
      | inr alive ↦
          let third : leb upstream_attempts n ≡ true = ground (arith, last) in
          rw (e, retry_loop) (rw alive (rw third (_, refl, refl)))
    ]
  ]

  retry_loop_next :
      (b : Bool)
      → n < upstream_attempts
      → Ends w fuel (suc n) b
      → Ends w (suc fuel) n (is_silent w n || (goes_on w n && b))
  unfolding retry_loop
  retry_loop_next b early rest th slept =
      let more : leb upstream_attempts n ≡ false = ground (arith, early) in
      elim (Attempt-cases (w.attempt n)) [
        | inl (r, e) ↦ elim (Bool-cases (retryable_upstream_status r.status)) [
          | inr final ↦ rw (e, retry_loop) (rw final (_, refl, refl))
          | inl again ↦ elim (Bool-cases (w.gone n)) [
            | inl gone ↦ rw (e, retry_loop) (rw (again, more, gone) (_, refl, refl))
            | inr here ↦ elim (Bool-cases (w.cut_short n)) [
              | inl cut ↦ rw (e, retry_loop) (rw (again, more, here, cut) (_, refl, refl))
              | inr slept_out ↦ rw (e, retry_loop) (rw (again, more, here, slept_out) (rest _ _))
            ]
          ]
        ]
        | inr (err, e) ↦ elim (Bool-cases (is_canceled err)) [
          | inl stop ↦ rw (e, retry_loop) (rw stop (_, refl, refl))
          | inr alive ↦ elim (Bool-cases (w.gone n)) [
            | inl gone ↦ rw (e, retry_loop) (rw (alive, gone) (_, refl, refl))
            | inr here ↦ elim (Bool-cases (w.cut_short n)) [
              | inl cut ↦ rw (e, retry_loop) (rw (alive, here, more, cut) (_, refl, refl))
              | inr slept_out ↦ rw (e, retry_loop) (rw (alive, here, more, slept_out) (rest _ _))
            ]
          ]
        ]
      ]

-- Exactly when `doWithRetry` returns neither a response nor an error: when its first or its second
-- attempt is answered by a status to retry while the caller's context is done by then, the second
-- being made only if the first fails in a way that is tried again and the context lasts through the
-- sleep between them.
pub do_with_retry_nil :
    (w : World) (th : HostThrottle)
    → (t : Trace) × (do_with_retry w th ≡ some t)
      × (is_nil t.outcome ≡ is_silent w 1 || (goes_on w 1 && is_silent w 2))
unfolding do_with_retry
do_with_retry_nil w th =
    let third = retry_loop_last w 0 3 (omega arith) in
    let second = retry_loop_next w 1 2 false (omega arith) third in
    let (t, e, nil) = retry_loop_next w 2 1 _ (omega arith) second th 0 in
    (t, e, ground (arith, nil))
