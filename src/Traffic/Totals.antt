-- ===== src/Traffic/Totals.antt =====
-- A bucket's total is the sum over its viewers.
use goflix.Base.{
  List, [], ◌∷◌, ℕ, zero, suc, ◌+◌, ◌/◌, Bool, not, some, Text, text_eq, text_key, nat_eq, ◌==◌,
  ltb, length, ◌≡◌, refl, ap, ◌∙◌, inl, inr, All, Bool-cases, Option-cases, arith,
}
use goflix.Base.Int.{ℤ, pos, negsuc}
use goflix.Base.Map.{Map, lookup, insert, retain}
use goflix.Traffic.{
  BwBucket, empty_bucket, wrap, count_of, add_to, with_new, viewer, Traffic, account,
  record_traffic, bw_max_buckets, bw_bucket_seconds,
}

abbrev pub sum_of : Map Text ℕ → ℕ
sum_of [] = 0
sum_of ((ip, n) ∷ m) = n + sum_of m

abbrev pub IsBalanced : BwBucket → Type 0
IsBalanced b = b.total ≡ wrap (sum_of b.per_ip)

abbrev pub Balanced : Map ℕ BwBucket → Type 0
Balanced = All (λ kb. IsBalanced (kb.1))

sum_of-insert :
    (ip : Text) (v : ℕ) (m : Map Text ℕ) → sum_of (insert ip v m) + count_of ip m ≡ sum_of m + v
unfolding insert lookup
sum_of-insert ip v [] = ground arith
sum_of-insert ip v ((j, w) ∷ m) = elim (Bool-cases (text_eq j ip)) [
  | inl same ↦ rw (same, insert) (ground arith)
  | inr other ↦ rw (other, insert) (ground (arith, sum_of-insert ip v m))
]

wrapped : (s c n t : ℕ) → t + c ≡ s + wrap (c + n) → wrap (wrap s + n) ≡ wrap t
wrapped s c n t e = ground (arith, e)

add_to-IsBalanced : (ip : Text) (n : ℕ) (b : BwBucket) → IsBalanced b → IsBalanced (add_to ip n b)
unfolding add_to
add_to-IsBalanced ip n b h =
    ap (λ x. wrap (x + n)) h
    ∙ wrapped (sum_of b.per_ip) (count_of ip b.per_ip) n
        (sum_of (insert ip (wrap (count_of ip b.per_ip + n)) b.per_ip))
        (sum_of-insert ip (wrap (count_of ip b.per_ip + n)) b.per_ip)

lookup-IsBalanced :
    (slot : ℕ) (m : Map ℕ BwBucket) (b : BwBucket)
    → Balanced m
    → lookup slot m ≡ some b
    → IsBalanced b
unfolding lookup
lookup-IsBalanced slot [] b h e = absurd (ground (arith, e))
lookup-IsBalanced slot ((k, c) ∷ m) b h e = elim (Bool-cases (k == slot)) [
  | inl same ↦ let it : c ≡ b = ground (arith, same, e) in rw (← it) (h.0)
  | inr other ↦ lookup-IsBalanced slot m b (h.1) (ground (arith, other, e))
]

insert-Balanced :
    (slot : ℕ) (b : BwBucket) (m : Map ℕ BwBucket)
    → IsBalanced b
    → Balanced m
    → Balanced (insert slot b m)
unfolding insert
insert-Balanced slot b [] k h = (k, tt)
insert-Balanced slot b ((j, c) ∷ m) k h = elim (Bool-cases (j == slot)) [
  | inl same ↦ rw (same, insert) (k, h.1)
  | inr other ↦ rw (other, insert) (h.0, insert-Balanced slot b m k (h.1))
]

retain-Balanced :
    (p : ℕ → BwBucket → Bool) (m : Map ℕ BwBucket) → Balanced m → Balanced (retain p m)
unfolding retain
retain-Balanced p [] h = tt
retain-Balanced p ((j, c) ∷ m) h = elim (Bool-cases (p j c)) [
  | inl stays ↦ rw (stays, retain) (h.0, retain-Balanced p m (h.1))
  | inr goes ↦ rw (goes, retain) (retain-Balanced p m (h.1))
]

-- A write of `n` bytes to the viewer `ip` at the second `now`.
pub record Write : Type 0 where
  pub ip : Text
  pub n : ℤ
  pub now : ℕ

unfoldable pub run : List Write → Traffic → Traffic
run [] t = t
run (w ∷ ws) t = run ws (record_traffic w.ip w.n w.now t)

with_new-Balanced : (slot : ℕ) (m : Map ℕ BwBucket) → Balanced m → Balanced (with_new slot m)
unfolding with_new
with_new-Balanced slot m h =
    elim (Bool-cases (ltb (bw_max_buckets + 2) (length (insert slot empty_bucket m)))) [
      | inl many ↦
          rw (many, with_new)
            (retain-Balanced (λ k b. not (ltb (k + bw_max_buckets) slot))
              (insert slot empty_bucket m) (insert-Balanced slot empty_bucket m refl h))
      | inr few ↦ rw (few, with_new) (insert-Balanced slot empty_bucket m refl h)
    ]

account-Balanced :
    (ip : Text) (n slot : ℕ) (m : Map ℕ BwBucket) → Balanced m → Balanced (account ip n slot m)
unfolding account
account-Balanced ip n slot m h = elim (Option-cases (lookup slot m)) [
  | inl new ↦
      rw (new, account)
        (insert-Balanced slot (add_to ip n empty_bucket) (with_new slot m)
          (add_to-IsBalanced ip n empty_bucket refl) (with_new-Balanced slot m h))
  | inr (b, e) ↦
      rw (e, account)
        (insert-Balanced slot (add_to ip n b) m
          (add_to-IsBalanced ip n b (lookup-IsBalanced slot m b h e)) h)
]

record_traffic-Balanced :
    (ip : Text) (n : ℤ) (now : ℕ) (t : Traffic)
    → Balanced t.bw_buckets
    → Balanced ((record_traffic ip n now t).bw_buckets)
unfolding record_traffic
record_traffic-Balanced ip (negsuc n) now t h = h
record_traffic-Balanced ip (pos zero) now t h = h
record_traffic-Balanced ip (pos (suc n)) now t h =
    account-Balanced (viewer ip) (suc n) (now / bw_bucket_seconds) t.bw_buckets h

-- After any history of writes, in any order of their times, the total of every bucket is the sum of
-- its viewers' counts, as 64-bit integers.
pub run-Balanced :
    (ws : List Write) (t : Traffic) → Balanced t.bw_buckets → Balanced ((run ws t).bw_buckets)
unfolding run
run-Balanced [] t h = h
run-Balanced (w ∷ ws) t h =
    run-Balanced ws (record_traffic w.ip w.n w.now t) (record_traffic-Balanced w.ip w.n w.now t h)
