-- ===== src/Upstream/Retry.antt =====
-- `doWithRetry`, `retryDelay`, `retryableUpstreamStatus` and `noteUpstreamOutcome` of
-- internal/mediaresolver/netutil.go. Attempt `n` of the transport, the clock and the state of the
-- caller's context are parameters, functions of the number of the attempt.
pub mod Final
mod Examples
use goflix.Base.{
  ℕ, zero, suc, ◌+◌, ◌*◌, Bool, true, false, not, ◌&&◌, ◌||◌, Option, none, some, ltb, leb, ◌==◌,
  if◌then◌else◌,
}
use goflix.Upstream.Throttle.{HostThrottle, failed, recovered, remaining}

-- `upstreamAttempts`
abbrev pub upstream_attempts : ℕ
upstream_attempts = 3

-- `retry_after` is what `parseRetryAfter` makes of the response's header, in nanoseconds.
pub record Response : Type 0 where
  pub status : ℕ
  pub retry_after : ℕ

pub data Failure : Type 0 where
  canceled deadline transport_error : Failure

-- What one attempt returns.
pub data Attempt : Type 0 where
  answered : Response → Attempt
  broken : Failure → Attempt

-- The two results of the function: either may be nil.
pub record Outcome : Type 0 where
  pub response : Option Response
  pub error : Option Failure

unfoldable pub retryable_upstream_status : ℕ → Bool
retryable_upstream_status code =
    code == 408 || code == 429 || code == 502 || code == 503 || code == 504

abbrev pub second : ℕ
second = 1_000_000_000

-- `retryDelay`
unfoldable pub retry_delay : ℕ → Option Response → ℕ
retry_delay attempt none = attempt * 400_000_000
retry_delay attempt (some resp) =
    let base = attempt * (2 * second) in
    let asked = if ltb base resp.retry_after then resp.retry_after else base in
    if not (resp.status == 429)
    then attempt * 400_000_000
    else if ltb (15 * second) asked
    then 15 * second
    else asked

-- `noteUpstreamOutcome`, for a response
unfoldable pub note_upstream_outcome : HostThrottle → Response → ℕ → HostThrottle
note_upstream_outcome th resp now =
    if retryable_upstream_status resp.status
    then (failed th now).0
    else if leb 200 resp.status && ltb resp.status 400
    then recovered th
    else th

abbrev pub is_canceled : Failure → Bool
is_canceled canceled = true
is_canceled deadline = false
is_canceled transport_error = false

-- What surrounds the loop. `gone n` says that the context is done when attempt `n` has failed,
-- `cut_short n` that it ends during the sleep behind attempt `n`, with the error `why`.
pub record World : Type 0 where
  pub attempt : ℕ → Attempt
  pub clock : ℕ → ℕ
  pub gone : ℕ → Bool
  pub cut_short : ℕ → Bool
  pub why : Failure

-- The attempts made, the state of the host's cooldown, the sleeps, and the outcome.
pub record Trace : Type 0 where
  pub attempts : ℕ
  pub throttle : HostThrottle
  pub slept : ℕ
  pub outcome : Outcome

abbrev nil_response : Option Failure → Outcome
nil_response e = record { response = none; error = e }

-- The longer of the delay and the rest of the cooldown.
unfoldable pub pause_for : HostThrottle → ℕ → ℕ → Option Response → ℕ
pause_for th n now resp =
    let delay = retry_delay n resp in
    let cd = remaining th now in if ltb delay cd then cd else delay

-- The loop from attempt `n` on. `fuel` counts the rounds; three are enough.
unfoldable pub retry_loop : World → ℕ → ℕ → HostThrottle → ℕ → Option Trace
retry_loop w zero n th slept = none
retry_loop w (suc fuel) n th slept = elim (w.attempt n) [
  | answered resp ↦
      let th' = (failed th (w.clock n)).0 in
      let pause = pause_for th' n (w.clock n) (some resp) in
      let again = retry_loop w fuel (suc n) th' (slept + pause) in
      if not (retryable_upstream_status resp.status) || leb upstream_attempts n
      then some (record {
        attempts = n;
        throttle = note_upstream_outcome th resp (w.clock n);
        slept = slept;
        outcome = record { response = some resp; error = none };
      })
      else if w.gone n
      then some
          (record { attempts = n; throttle = th'; slept = slept; outcome = nil_response none })
      else if w.cut_short n
      then some (record {
        attempts = n;
        throttle = th';
        slept = slept;
        outcome = nil_response (some w.why);
      })
      else again
  | broken err ↦
      let th' = (failed th (w.clock n)).0 in
      let pause = pause_for th' n (w.clock n) none in
      let again = retry_loop w fuel (suc n) th' (slept + pause) in
      if is_canceled err || w.gone n
      then some (record {
        attempts = n;
        throttle = th';
        slept = slept;
        outcome = nil_response (some err);
      })
      else if leb upstream_attempts n
      then some (record {
        attempts = n;
        throttle = th';
        slept = slept;
        outcome = nil_response (some err);
      })
      else if w.cut_short n
      then some (record {
        attempts = n;
        throttle = th';
        slept = slept;
        outcome = nil_response (some err);
      })
      else again
]

unfoldable pub do_with_retry : World → HostThrottle → Option Trace
unfolding retry_loop
do_with_retry w th = retry_loop w upstream_attempts 1 th 0
