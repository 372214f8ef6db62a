-- ===== src/Upstream/Throttle.antt =====
-- `hostThrottle`: the cooldown of one upstream host. Durations and times are nanoseconds; a
-- `time.Duration` is an `int64`, whose shift wraps around. The zero `time.Time` is 0.
pub mod Cooldown
use goflix.Base.{ℕ, suc, ◌+◌, ◌-◌, ◌*◌, ◌%◌, ◌^◌, Bool, ◌||◌, ltb, leb, if◌then◌else◌}
use goflix.Base.Int.{ℤ, pos, negsuc, sub_ℕ, ltb_ℤ, pos_part, neg_part}

abbrev pub throttle_base : ℕ
throttle_base = 750_000_000

abbrev pub throttle_max : ℕ
throttle_max = 8_000_000_000

pub record HostThrottle : Type 0 where
  pub strikes : ℕ
  pub until : ℕ

-- The `int64` with the low 64 bits of a number.
abbrev pub int64 : ℕ → ℤ
int64 x = let u = x % 2 ^ 64 in if ltb u (2 ^ 63) then pos u else negsuc (2 ^ 64 - 1 - u)

-- `throttleBase << (t.strikes - 1)` and its clamp, for the count after it was raised.
unfoldable pub cooldown : ℕ → ℤ
cooldown strikes =
    let d = int64 (throttle_base * 2 ^ (strikes - 1)) in
    if ltb_ℤ (pos throttle_max) d || not_positive d then pos throttle_max else d
  where
    not_positive : ℤ → Bool
    not_positive d = ltb_ℤ d (pos 1)

-- The new state, and `t.until.Sub(now)`.
unfoldable pub failed : HostThrottle → ℕ → HostThrottle × ℤ
failed t now =
    let strikes = t.strikes + 1 in
    let until = pos_part (cooldown strikes) + now in
    let latest = if ltb t.until until then until else t.until in
    (record { strikes = strikes; until = latest }, sub_ℕ latest now)

unfoldable pub recovered : HostThrottle → HostThrottle
recovered t = record { strikes = 0; until = 0 }

unfoldable pub remaining : HostThrottle → ℕ → ℕ
remaining t now = t.until - now
