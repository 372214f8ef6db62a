-- ===== src/Upstream/Throttle/Cooldown.antt =====
-- The cooldown doubles from 750 ms up to 8 s, at every number of strikes.
use native.Mathlib.Decide.{dec_lt}
use native.Mathlib.Nat.{pow-suc, mul-mod_left}
use goflix.Base.{
  ℕ, zero, suc, ◌+◌, ◌-◌, ◌*◌, ◌%◌, ◌^◌, ◌≤◌, ◌<◌, min, max, Bool, true, ◌&&◌, ◌==◌, ◌≡◌, refl,
  arith, ap, ◌∙◌,
}
use goflix.Base.Int.{ℤ, pos, pos_part, neg_part}
use goflix.Upstream.Throttle.{
  throttle_base, throttle_max, HostThrottle, cooldown, failed, remaining,
}

abbrev is_expected : ℕ → Bool
is_expected s =
    (neg_part (cooldown (suc s)) == 0)
    && (pos_part (cooldown (suc s)) == min (throttle_base * 2 ^ s) throttle_max)

-- The check of `n` strikes in a row, by evaluation.
expected_from : ℕ → ℕ → Bool
expected_from s zero = true
expected_from s (suc n) = is_expected s && expected_from (suc s) n

expected_at : (k n s : ℕ) → k < n → expected_from s n ≡ true → is_expected (s + k) ≡ true
unfolding expected_from
expected_at k zero s few all_fit = absurd (omega arith)
expected_at zero (suc n) s few all_fit =
    let same : s + 0 ≡ s = omega arith in rw same (ground (arith, all_fit))
expected_at (suc k) (suc n) s few all_fit =
    let shifted : s + suc k ≡ suc s + k = omega arith in
    rw shifted (expected_at k n (suc s) (omega arith) (ground (arith, all_fit)))

table : expected_from 0 57 ≡ true
unfolding expected_from cooldown
table = refl

of_parts : (a : ℤ) (n : ℕ) → neg_part a ≡ 0 → pos_part a ≡ n → a ≡ pos n
of_parts a n h k = ground arith

-- From the 57th doubling on the product is a multiple of 2 ^ 64.
wrapped : (k : ℕ) → throttle_base * 2 ^ (57 + k) ≡ 5859375 * 2 ^ k * 2 ^ 64
wrapped zero = refl
wrapped (suc k) =
    let next : 57 + suc k ≡ suc (57 + k) = omega arith in
    rw (next, pow-suc, pow-suc) (omega (arith, wrapped k))

pow_pos : (k : ℕ) → 0 < 2 ^ k
pow_pos zero = omega arith
pow_pos (suc k) = rw pow-suc (omega (arith, pow_pos k))

cooldown_wrapped : (k : ℕ) → cooldown (suc (57 + k)) ≡ pos throttle_max
unfolding cooldown
cooldown_wrapped k =
    let back : suc (57 + k) - 1 ≡ 57 + k = omega arith in
    let low : 5859375 * 2 ^ k * 2 ^ 64 % 2 ^ 64 ≡ 0 = mul-mod_left _ _ in
    rw back (rw (wrapped k) (rw low refl))

-- The cooldown after one strike more than `s` is 750 ms doubled `s` times, and 8 s at most. The
-- shift of an `int64` that wraps around, to any value, does not shorten it.
pub cooldown_lem : (s : ℕ) → cooldown (suc s) ≡ pos (min (throttle_base * 2 ^ s) throttle_max)
cooldown_lem s = elim (dec_lt s 57) [
  | yes few ↦
      let checked = expected_at s 57 0 few table in
      of_parts (cooldown (suc s)) _ (ground (arith, checked)) (ground (arith, checked))
  | no many ↦
      let split : s ≡ 57 + (s - 57) = omega arith in
      rw split (cooldown_wrapped (s - 57) ∙ ap pos (most (s - 57)))
]
  where
    most : (k : ℕ) → throttle_max ≡ min (throttle_base * 2 ^ (57 + k)) throttle_max
    most k = rw (wrapped k) (omega (arith, pow_pos k))

abbrev pub delay : ℕ → ℕ
delay s = min (throttle_base * 2 ^ s) throttle_max

-- One more failure at `now`: the strike is counted, the cooldown never ends earlier than it did,
-- lasts at least the doubled delay from `now`, ends within 8 s of `now` or when it ended before, and
-- the result is what remains of it.
pub failed_lem :
    (t : HostThrottle) (now : ℕ)
    → ((failed t now).0.strikes ≡ t.strikes + 1)
      × (t.until ≤ (failed t now).0.until)
      × (now + delay t.strikes ≤ (failed t now).0.until)
      × ((failed t now).0.until ≤ max t.until (now + throttle_max))
      × ((failed t now).1 ≡ pos (remaining (failed t now).0 now))
unfolding failed remaining
failed_lem t now =
    let e : t.strikes + 1 ≡ suc t.strikes = omega arith in
    let c : cooldown (t.strikes + 1) ≡ pos (delay t.strikes) = rw e (cooldown_lem t.strikes) in
    rw c (refl, ground arith, ground arith, ground arith, ground (arith, delay_pos t.strikes))
  where
    delay_pos : (s : ℕ) → 0 < delay s
    delay_pos s = omega (arith, pow_pos s)

-- The delay never shrinks as strikes add up.
pub delay_mono : (s : ℕ) → delay s ≤ delay (suc s)
delay_mono s = rw pow-suc (omega arith)
