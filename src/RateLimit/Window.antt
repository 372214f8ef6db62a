-- ===== src/RateLimit/Window.antt =====
-- How many requests of one address the limiter lets through in a span of time.
use native.Mathlib.Decide.{dec_lt}
use mathlib.Core.Path.{subst}
use goflix.Base.{
  ℕ, ◌+◌, ◌-◌, ◌*◌, ◌≤◌, true, List, [], ◌∷◌, Text, text_key, text_eq, text_eq_iff, length, leb,
  if◌then◌else◌, ◌≡◌, refl, inl, inr, arith, Bool-cases, Option-cases, ◌&&◌, ◌↔◌,
}
use goflix.Base.Map.{lookup}
use goflix.RateLimit.{
  IpLimiter, max_tracked_ips, sweep_locked, tokens_of, spend, allow, new_ip_limiter,
}
use goflix.RateLimit.Credit.{
  IsValid, credit, tokens_of-credit, sweep_locked_sound, sweep_locked-credit, Spent, credit-le,
  spend_short, spend_enough, allow-Spent,
}

-- Time adds at most what passes.
credit_later :
    (l : IpLimiter) (ip : Text) (now later : ℕ)
    → now ≤ later
    → credit l ip later ≤ credit l ip now + (later - now)
credit_later l ip now later h = ground arith

IsValid-later : (l : IpLimiter) (now later : ℕ) → now ≤ later → IsValid l now → IsValid l later
IsValid-later l now later h v = record {
  distinct = v.distinct;
  sound = λ ip. elim (Option-cases (lookup ip l.buckets)) [
    | inl new ↦ rw new tt
    | inr (b, found) ↦
        let w = rw found at (v.sound ip) in
        rw found (record {
          not_negative = w.not_negative;
          capped = w.capped;
          past = omega (arith, w.past);
        })
  ];
}

-- A run of the limiter over requests of any addresses, and the requests of one of them that pass.
unfoldable pub admitted : IpLimiter → Text → List (Text × ℕ) → ℕ
admitted l ip [] = 0
admitted l ip ((j, now) ∷ calls) =
    (if (allow l j now).1 && text_eq j ip then 1 else 0) + admitted (allow l j now).0 ip calls

-- The clock does not run backwards from `now`, and `last` is its last reading.
abbrev pub Clocked : ℕ → List (Text × ℕ) → ℕ → Type 0
Clocked now [] last = now ≤ last
Clocked now ((j, at) ∷ calls) last = (now ≤ at) × Clocked at calls last

Clocked-le : (calls : List (Text × ℕ)) (now last : ℕ) → Clocked now calls last → now ≤ last
Clocked-le [] now last c = c
Clocked-le ((j, at) ∷ calls) now last c = omega (arith, Clocked-le calls at last c.1)

-- What one call costs an address, with the credit that the time before it added.
cost_of_call :
    (l : IpLimiter) (j ip : Text) (now at : ℕ)
    → Spent l (allow l j at).0 j at (allow l j at).1
    → now ≤ at
    → credit (allow l j at).0 ip at + (if (allow l j at).1 && text_eq j ip then 1 else 0) * l.per
      ≤ credit l ip now + (at - now)
cost_of_call l j ip now at s h = elim (Bool-cases (text_eq j ip)) [
  | inl same ↦
      let own =
        subst
          (λ k.
            credit (allow l j at).0 k at + (if (allow l j at).1 then l.per else 0) ≡ credit l k at)
          ((text_eq_iff j ip).0 same) s.own in
      rw same (elim (Bool-cases (allow l j at).1) [
        | inl passed ↦ rw passed (omega (arith, rw passed at own, credit_later l ip now at h))
        | inr refused ↦ rw refused (omega (arith, rw refused at own, credit_later l ip now at h))
      ])
  | inr other ↦
      let kept = s.others ip (λ e. ground (arith, text_eq_iff j ip, e)) in
      rw other (elim (Bool-cases (allow l j at).1) [
        | inl passed ↦ rw passed (omega (arith, kept, credit_later l ip now at h))
        | inr refused ↦ rw refused (omega (arith, kept, credit_later l ip now at h))
      ])
]

admitted-credit :
    (calls : List (Text × ℕ)) (l : IpLimiter) (ip : Text) (now last : ℕ)
    → IsValid l now
    → l.burst ≤ 10
    → Clocked now calls last
    → admitted l ip calls * l.per ≤ credit l ip now + (last - now)
unfolding admitted
admitted-credit [] l ip now last v small c = omega arith
admitted-credit ((j, at) ∷ calls) l ip now last v small c =
    let s = allow-Spent l j at (IsValid-later l now at c.0 v) small in
    let later = (allow l j at).0 in
    let rest : admitted later ip calls * l.per ≤ credit later ip at + (last - at) =
      subst (λ p. admitted later ip calls * p ≤ credit later ip at + (last - at)) s.same_per
        (admitted-credit calls later ip at last s.valid (omega (arith, s.same_burst)) c.1) in
    omega (arith, rest, cost_of_call l j ip now at s c.0, Clocked-le calls at last c.1)

-- From any valid state, however many addresses share the table and whatever is swept, and while
-- the clock does not run backwards and a burst is at most ten tokens: the requests of one address
-- that pass take `per` each out of one burst and the time that goes by.
pub admitted_bound :
    (l : IpLimiter) (ip : Text) (calls : List (Text × ℕ)) (now last : ℕ)
    → IsValid l now
    → l.burst ≤ 10
    → Clocked now calls last
    → admitted l ip calls * l.per ≤ l.burst * l.per + (last - now)
admitted_bound l ip calls now last v small c =
    omega (arith, admitted-credit calls l ip now last v small c, credit-le l ip now)

-- A table with no bucket is valid at any time.
pub new_ip_limiter-IsValid : (burst per now : ℕ) → IsValid (new_ip_limiter burst per) now
unfolding new_ip_limiter lookup
new_ip_limiter-IsValid burst per now = record { distinct = tt; sound = λ ip. tt }

spend_iff :
    (l : IpLimiter) (ip : Text) (now : ℕ)
    → IsValid l now
    → ((spend l ip now (tokens_of l ip now)).1 ≡ true) ↔ (l.per ≤ credit l ip now)
spend_iff l ip now v =
    let n = credit l ip now in
    rw (tokens_of-credit l ip now (v.sound ip)) (elim (dec_lt n l.per) [
      | yes short ↦
          rw (spend_short l ip now n short)
            (λ e. absurd (ground (arith, e)), λ e. absurd (omega arith))
      | no enough ↦ rw (spend_enough l ip now n (omega arith)) (λ e. omega arith, λ e. refl)
    ])

-- While a burst is at most ten tokens, a request passes exactly when its address has a whole token
-- of credit, whether or not the table is swept first.
pub allow_iff :
    (l : IpLimiter) (ip : Text) (now : ℕ)
    → IsValid l now
    → l.burst ≤ 10
    → ((allow l ip now).1 ≡ true) ↔ (l.per ≤ credit l ip now)
unfolding allow sweep_locked
allow_iff l ip now v small = elim (Bool-cases (leb max_tracked_ips (length l.buckets))) [
  | inr few ↦ rw few (spend_iff l ip now v)
  | inl many ↦
      let swept = spend_iff (sweep_locked l now) ip now (sweep_locked_sound l now v) in
      rw many (rw (sweep_locked-credit l ip now v small) at swept)
]
