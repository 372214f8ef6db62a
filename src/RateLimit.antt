-- ===== src/RateLimit.antt =====
-- The per-IP token buckets of internal/server/ratelimit.go. Times are nanoseconds. The source
-- keeps a bucket's tokens as a float; here a token counts `per` units, one for each nanosecond that
-- it takes to refill, so that the arithmetic is exact. It is signed, since `allow` reads the clock
-- before it takes the lock and an elapsed time may be negative.
pub mod Credit
pub mod Window
mod Examples
use goflix.Base.{
  ℕ, ◌+◌, ◌*◌, Bool, true, false, not, Option, none, some, Text, text_key, length, ltb, leb,
  if◌then◌else◌, [],
}
use goflix.Base.Int.{ℤ, pos, sub_ℕ, ◌+ℤ◌, ◌-ℤ◌, ltb_ℤ}
use goflix.Base.Map.{Map, lookup, insert, retain}

-- `maxTrackedIPs`
abbrev pub max_tracked_ips : ℕ
max_tracked_ips = 4096

pub record IpBucket : Type 0 where
  pub tokens : ℤ
  pub last : ℕ

pub record IpLimiter : Type 0 where
  pub burst : ℕ
  pub per : ℕ
  pub buckets : Map Text IpBucket

unfoldable pub new_ip_limiter : ℕ → ℕ → IpLimiter
new_ip_limiter burst per = record { burst = burst; per = per; buckets = [] }

-- `sweepLocked`: a bucket stays unless it is idle for more than ten refill windows.
unfoldable pub sweep_locked : IpLimiter → ℕ → IpLimiter
sweep_locked l now = record l {
  buckets = retain (λ ip b. not (ltb (b.last + 10 * l.per) now)) l.buckets;
}

-- `b.tokens += …`, and the cap at `burst`
unfoldable pub refill : IpLimiter → IpBucket → ℕ → ℤ
refill l b now =
    let t = b.tokens +ℤ sub_ℕ now b.last in
    if ltb_ℤ (pos (l.burst * l.per)) t then pos (l.burst * l.per) else t

-- The tokens of the address, once its bucket is made or refilled.
unfoldable pub tokens_of : IpLimiter → Text → ℕ → ℤ
tokens_of l ip now = elim (lookup ip l.buckets) [
  | none ↦ pos (l.burst * l.per)
  | some b ↦ refill l b now
]

-- The last lines of `allow`: refuse below one token, else take one.
unfoldable pub spend : IpLimiter → Text → ℕ → ℤ → IpLimiter × Bool
spend l ip now t =
    if ltb_ℤ t (pos l.per)
    then (record l { buckets = insert ip (record { tokens = t; last = now }) l.buckets }, false)
    else (
      record l { buckets = insert ip (record { tokens = t -ℤ pos l.per; last = now }) l.buckets },
      true,
    )

unfoldable pub allow : IpLimiter → Text → ℕ → IpLimiter × Bool
allow l ip now =
    let swept = if leb max_tracked_ips (length l.buckets) then sweep_locked l now else l in
    spend swept ip now (tokens_of swept ip now)
