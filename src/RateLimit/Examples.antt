-- ===== src/RateLimit/Examples.antt =====
-- The limiter at concrete inputs: two requests in a burst, one more each ten units of time.
use goflix.Base.{ℕ, ◌*◌, ◌+◌, ◌-◌, ◌≤◌, ◌≡◌, refl, arith, List, [], ◌∷◌, Text, codes, text_eq}
use goflix.Base.Int.{◌+ℤ◌, ◌-ℤ◌}
use goflix.Base.Map.{lookup, insert, retain}
use goflix.RateLimit.{IpLimiter, new_ip_limiter, allow, spend, tokens_of, refill, sweep_locked}
use goflix.RateLimit.Window.{admitted, admitted_bound, new_ip_limiter-IsValid}
use goflix.RateLimit.Credit.{IsValid}

abbrev limiter : IpLimiter
limiter = record { burst = 2; per = 10; buckets = [] }

abbrev client : Text
client = codes "10.0.0.7"

abbrev calls : List (Text × ℕ)
calls = (client, 1) ∷ (client, 2) ∷ (client, 3) ∷ (codes "10.0.0.8", 4) ∷ (client, 11) ∷ []

admitted-calls : admitted limiter client calls ≡ 3
unfolding admitted allow spend tokens_of refill sweep_locked lookup insert retain text_eq ◌+ℤ◌ ◌-ℤ◌
admitted-calls = refl

limiter-IsValid : IsValid limiter 0
unfolding new_ip_limiter
limiter-IsValid = new_ip_limiter-IsValid 2 10 0

admitted_bound_example : admitted limiter client calls * 10 ≤ 2 * 10 + (11 - 0)
admitted_bound_example =
    admitted_bound limiter client calls 0 11 limiter-IsValid (omega arith) (omega arith)
