-- ===== src/RateLimit/Credit.antt =====
-- The credit of an address: its tokens and what it regains. A look at the limiter spends it.
use native.Mathlib.Decide.{dec_lt}
use goflix.Base.{
  ℕ, ◌+◌, ◌-◌, ◌*◌, ◌≤◌, ◌<◌, min, Bool, true, false, Option, none, some, Text, text_key, text_eq,
  text_eq_iff, length, ltb, leb, if◌then◌else◌, ◌≡◌, refl, ◌≢◌, inl, inr, arith, Bool-cases,
  Option-cases, ◌∙◌,
}
use goflix.Base.Int.{pos, pos_part, neg_part, ◌+ℤ◌, ◌-ℤ◌}
use goflix.Base.Map.{
  lookup, insert, Distinct, lookup-insert, lookup-retain, retain-Distinct, insert-Distinct,
}
use goflix.RateLimit.{
  IpBucket, IpLimiter, max_tracked_ips, sweep_locked, refill, tokens_of, spend, allow,
}

-- A bucket that no clock reading up to `now` has overdrawn.
pub record IsSound (cap now : ℕ) (b : IpBucket) : Type 0 where
  pub not_negative : neg_part b.tokens ≡ 0
  pub capped : pos_part b.tokens ≤ cap
  pub past : b.last ≤ now

abbrev pub SoundAt : ℕ → ℕ → Option IpBucket → Type 0
SoundAt cap now none = Unit
SoundAt cap now (some b) = IsSound cap now b

pub record IsValid (l : IpLimiter) (now : ℕ) : Type 0 where
  pub distinct : Distinct l.buckets
  pub sound : (ip : Text) → SoundAt (l.burst * l.per) now (lookup ip l.buckets)

-- The units that an address could spend at `now`.
abbrev pub credit_of : ℕ → ℕ → Option IpBucket → ℕ
credit_of cap now none = cap
credit_of cap now (some b) = min cap (pos_part b.tokens + (now - b.last))

abbrev pub credit : IpLimiter → Text → ℕ → ℕ
credit l ip now = credit_of (l.burst * l.per) now (lookup ip l.buckets)

pub tokens_of-credit :
    (l : IpLimiter) (ip : Text) (now : ℕ)
    → SoundAt (l.burst * l.per) now (lookup ip l.buckets)
    → tokens_of l ip now ≡ pos (credit l ip now)
unfolding tokens_of refill ◌+ℤ◌
tokens_of-credit l ip now s = elim (Option-cases (lookup ip l.buckets)) [
  | inl new ↦ rw (new, tokens_of)
  | inr (b, found) ↦ let w = rw found at s in rw (found, tokens_of) (ground (arith, w.past))
]

pub sweep_locked_sound :
    (l : IpLimiter) (now : ℕ) → IsValid l now → IsValid (sweep_locked l now) now
unfolding sweep_locked
sweep_locked_sound l now v = record {
  distinct = retain-Distinct _ l.buckets v.distinct;
  sound = λ ip. elim (Option-cases (lookup ip l.buckets)) [
    | inl new ↦ rw (lookup-retain, v.distinct) (rw new tt)
    | inr (b, found) ↦
        let w = rw found at (v.sound ip) in
        rw (lookup-retain, v.distinct)
          (rw found (elim (Bool-cases (ltb (b.last + 10 * l.per) now)) [
            | inl idle ↦ rw idle tt
            | inr busy ↦ rw busy w
          ]))
  ];
}

-- While a burst is at most ten tokens, a bucket that is swept had refilled already.
pub sweep_locked-credit :
    (l : IpLimiter) (ip : Text) (now : ℕ)
    → IsValid l now
    → l.burst ≤ 10
    → credit (sweep_locked l now) ip now ≡ credit l ip now
unfolding sweep_locked
sweep_locked-credit l ip now v small = elim (Option-cases (lookup ip l.buckets)) [
  | inl new ↦ rw (lookup-retain, v.distinct) (rw new refl)
  | inr (b, found) ↦
      rw (lookup-retain, v.distinct)
        (rw found (elim (Bool-cases (ltb (b.last + 10 * l.per) now)) [
          | inl idle ↦ rw idle (full l.burst l.per b small idle)
          | inr busy ↦ rw busy
        ]))
]
  where
    full :
        (burst per : ℕ) (b : IpBucket)
        → burst ≤ 10
        → ltb (b.last + 10 * per) now ≡ true
        → burst * per ≡ min (burst * per) (pos_part b.tokens + (now - b.last))
    full burst per b small idle =
        let most : burst * per ≤ 10 * per = grind arith in ground (arith, most, idle)

pub record Spent (l l' : IpLimiter) (ip : Text) (now : ℕ) (admitted : Bool) : Type 0 where
  pub valid : IsValid l' now
  pub same_burst : l'.burst ≡ l.burst
  pub same_per : l'.per ≡ l.per
  pub own : credit l' ip now + (if admitted then l.per else 0) ≡ credit l ip now
  pub others : (j : Text) → ip ≢ j → credit l' j now ≡ credit l j now

store_sound :
    (l : IpLimiter) (ip j : Text) (now n : ℕ)
    → IsValid l now
    → n ≤ l.burst * l.per
    → SoundAt
        (l.burst * l.per)
        now
        (lookup j (insert ip (record { tokens = pos n; last = now }) l.buckets))
store_sound l ip j now n v h = rw lookup-insert (elim (Bool-cases (text_eq ip j)) [
  | inl same ↦ rw same (record { not_negative = refl; capped = h; past = omega arith })
  | inr other ↦ rw other (v.sound j)
])

store-Spent :
    (l : IpLimiter) (ip : Text) (now n : ℕ) (admitted : Bool)
    → IsValid l now
    → n + (if admitted then l.per else 0) ≡ credit l ip now
    → credit l ip now ≤ l.burst * l.per
    → Spent l
        (record l { buckets = insert ip (record { tokens = pos n; last = now }) l.buckets })
        ip
        now
        admitted
store-Spent l ip now n admitted v h most = record {
  valid = record {
    distinct = insert-Distinct ip _ l.buckets v.distinct;
    sound = λ j. store_sound l ip j now n v (omega arith);
  };
  same_burst = refl;
  same_per = refl;
  own = rw lookup-insert (rw ((text_eq_iff ip ip).1 refl) (omega arith));
  others = λ j ne. rw lookup-insert (elim (Bool-cases (text_eq ip j)) [
    | inl same ↦ absurd (ne ((text_eq_iff ip j).0 same))
    | inr other ↦ rw other
  ]);
}

pub credit-le : (l : IpLimiter) (ip : Text) (now : ℕ) → credit l ip now ≤ l.burst * l.per
credit-le l ip now = ground arith

abbrev stored : IpLimiter → Text → ℕ → ℕ → IpLimiter
stored l ip now n = record l {
  buckets = insert ip (record { tokens = pos n; last = now }) l.buckets;
}

pub spend_short :
    (l : IpLimiter) (ip : Text) (now n : ℕ)
    → n < l.per
    → spend l ip now (pos n) ≡ (stored l ip now n, false)
unfolding spend ◌-ℤ◌
spend_short l ip now n h = ground arith

pub spend_enough :
    (l : IpLimiter) (ip : Text) (now n : ℕ)
    → l.per ≤ n
    → spend l ip now (pos n) ≡ (stored l ip now (n - l.per), true)
unfolding spend ◌-ℤ◌
spend_enough l ip now n h = ground arith

spend-Spent :
    (l : IpLimiter) (ip : Text) (now : ℕ)
    → IsValid l now
    → Spent l (spend l ip now (tokens_of l ip now)).0 ip now (spend l ip now (tokens_of l ip now)).1
spend-Spent l ip now v =
    let n = credit l ip now in
    rw (tokens_of-credit l ip now (v.sound ip)) (elim (dec_lt n l.per) [
      | yes short ↦
          rw (spend_short l ip now n short)
            (store-Spent l ip now n false v (omega arith) (credit-le l ip now))
      | no enough ↦
          rw (spend_enough l ip now n (omega arith))
            (store-Spent l ip now (n - l.per) true v (omega arith) (credit-le l ip now))
    ])

-- One call of `allow`: the address spends one token's worth of its credit exactly when it is let
-- through, and no other address's credit changes.
pub allow-Spent :
    (l : IpLimiter) (ip : Text) (now : ℕ)
    → IsValid l now
    → l.burst ≤ 10
    → Spent l (allow l ip now).0 ip now (allow l ip now).1
unfolding allow sweep_locked
allow-Spent l ip now v small = elim (Bool-cases (leb max_tracked_ips (length l.buckets))) [
  | inr few ↦ rw few (spend-Spent l ip now v)
  | inl many ↦
      let swept = sweep_locked l now in
      let s = spend-Spent swept ip now (sweep_locked_sound l now v) in
      rw many (record {
        valid = s.valid;
        same_burst = s.same_burst;
        same_per = s.same_per;
        own = s.own ∙ sweep_locked-credit l ip now v small;
        others = λ j ne. s.others j ne ∙ sweep_locked-credit l j now v small;
      })
]
