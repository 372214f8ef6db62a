-- ===== src/Traffic/Slots.antt =====
-- The history stays bounded while the clock does not run backwards.
use goflix.Base.{
  List, [], ◌∷◌, ℕ, zero, suc, ◌+◌, ◌-◌, ◌/◌, ◌≤◌, ◌<◌, not, none, some, Text, nat_eq, ◌==◌, ==_iff,
  ltb, length, ◌≡◌, refl, sym, ap, ◌∙◌, inl, inr, All, Bool-cases, Option-cases, arith,
}
use goflix.Base.Int.{ℤ, pos, negsuc}
use goflix.Base.Map.{
  Map, lookup, insert, erase, retain, Distinct, insert-Distinct, retain-Distinct, erase-Distinct,
  length-insert, lookup-insert, lookup-retain,
}
use goflix.Traffic.{
  BwBucket, empty_bucket, add_to, with_new, viewer, Traffic, account, record_traffic,
  bw_max_buckets, bw_bucket_seconds,
}
use goflix.Traffic.Totals.{Write, run}

abbrev pub WithinSlots : ℕ → ℕ → Map ℕ BwBucket → Type 0
WithinSlots first behind = All (λ kb. (first ≤ kb.0) × (kb.0 < behind))

length-erase-none : (k : ℕ) (m : Map ℕ BwBucket) → lookup k m ≡ none → length (erase k m) ≡ length m
unfolding erase lookup
length-erase-none k [] e = refl
length-erase-none k ((j, b) ∷ m) e = ground (arith, length-erase-none k m, e)

length-erase : (k : ℕ) (m : Map ℕ BwBucket) → Distinct m → length m ≤ suc (length (erase k m))
unfolding erase
length-erase k [] d = ground arith
length-erase k ((j, b) ∷ m) d = elim (Bool-cases (j == k)) [
  | inr other ↦ rw (other, erase) (ground (arith, length-erase k m (d.1)))
  | inl same ↦
      let jk : j ≡ k = (==_iff j k).0 same in
      let absent : lookup k m ≡ none = ap (λ x. lookup x m) (sym jk) ∙ d.0 in
      rw (same, erase) (ground (arith, length-erase-none k m absent))
]

erase-WithinSlots :
    (first behind : ℕ) (m : Map ℕ BwBucket)
    → WithinSlots first (suc behind) m
    → WithinSlots first behind (erase behind m)
unfolding erase
erase-WithinSlots first behind [] h = tt
erase-WithinSlots first behind ((j, b) ∷ m) h = elim (Bool-cases (j == behind)) [
  | inl same ↦ rw (same, erase) (erase-WithinSlots first behind m (h.1))
  | inr other ↦
      rw (other, erase)
        ((ground (arith, h.0), ground (arith, h.0, other)), erase-WithinSlots first behind m (h.1))
]

-- A map with keys in a window of `n` slots has `n` entries at most.
pigeonhole :
    (first n : ℕ) (m : Map ℕ BwBucket) → Distinct m → WithinSlots first (first + n) m → length m ≤ n
pigeonhole first zero [] d h = ground arith
pigeonhole first zero (kb ∷ m) d h = absurd (ground (arith, h.0))
pigeonhole first (suc n) m d h = ground (
  arith,
  length-erase (first + n) m d,
  pigeonhole first n (erase (first + n) m) (erase-Distinct (first + n) m d)
      (erase-WithinSlots first (first + n) m (rw (shift first n) at h)),
)
  where
    shift : (a b : ℕ) → a + suc b ≡ suc (a + b)
    shift a b = ground arith

-- The invariant at a slot: one entry to a slot, none later, and no more than the bound.
pub record IsBounded (slot : ℕ) (m : Map ℕ BwBucket) : Type 0 where
  pub distinct : Distinct m
  pub past : WithinSlots 0 (suc slot) m
  pub few : length m ≤ bw_max_buckets + 2

widen :
    (a a' b b' : ℕ) (m : Map ℕ BwBucket) → a' ≤ a → b ≤ b' → WithinSlots a b m → WithinSlots a' b' m
widen a a' b b' [] h k w = tt
widen a a' b b' (kb ∷ m) h k w =
    ((ground (arith, w.0, h), ground (arith, w.0, k)), widen a a' b b' m h k (w.1))

insert-WithinSlots :
    (first behind slot : ℕ) (b : BwBucket) (m : Map ℕ BwBucket)
    → first ≤ slot
    → slot < behind
    → WithinSlots first behind m
    → WithinSlots first behind (insert slot b m)
unfolding insert
insert-WithinSlots first behind slot b [] h k w = ((h, k), tt)
insert-WithinSlots first behind slot b ((j, c) ∷ m) h k w = elim (Bool-cases (j == slot)) [
  | inl same ↦ rw (same, insert) (w.0, w.1)
  | inr other ↦ rw (other, insert) (w.0, insert-WithinSlots first behind slot b m h k (w.1))
]

-- What the pruning keeps
retain-WithinSlots :
    (slot : ℕ) (m : Map ℕ BwBucket)
    → WithinSlots 0 (suc slot) m
    → WithinSlots
        (slot - bw_max_buckets)
        (suc slot)
        (retain (λ k b. not (ltb (k + bw_max_buckets) slot)) m)
unfolding retain
retain-WithinSlots slot [] w = tt
retain-WithinSlots slot ((j, b) ∷ m) w = elim (Bool-cases (not (ltb (j + bw_max_buckets) slot))) [
  | inl stays ↦
      rw (stays, retain)
        ((ground (arith, stays), ground (arith, w.0)), retain-WithinSlots slot m (w.1))
  | inr goes ↦ rw (goes, retain) (retain-WithinSlots slot m (w.1))
]

pruned_length :
    (slot : ℕ) (m : Map ℕ BwBucket)
    → Distinct m
    → WithinSlots (slot - bw_max_buckets) (suc slot) m
    → length m ≤ bw_max_buckets + 1
pruned_length slot m d w = pigeonhole (slot - bw_max_buckets) (bw_max_buckets + 1) m d (
    widen (slot - bw_max_buckets) (slot - bw_max_buckets) (suc slot)
      (slot - bw_max_buckets + (bw_max_buckets + 1)) m (ground arith) (ground arith) w)

one_more : {n : ℕ} → n ≤ bw_max_buckets + 1 → n ≤ bw_max_buckets + 2
one_more h = ground (arith, h)

with_new-IsBounded :
    (slot : ℕ) (m : Map ℕ BwBucket) → IsBounded slot m → IsBounded slot (with_new slot m)
unfolding with_new
with_new-IsBounded slot m b =
    let more : Map ℕ BwBucket = insert slot empty_bucket m in
    let d : Distinct more = insert-Distinct slot empty_bucket m b.distinct in
    let w : WithinSlots 0 (suc slot) more =
      insert-WithinSlots 0 (suc slot) slot empty_bucket m (ground arith) (ground arith) b.past in
    elim (Bool-cases (ltb (bw_max_buckets + 2) (length more))) [
      | inr small ↦
          rw (small, with_new) (record { distinct = d; past = w; few = ground (arith, small) })
      | inl many ↦
          let kept : WithinSlots (slot - bw_max_buckets) (suc slot)
              (retain (λ k b. not (ltb (k + bw_max_buckets) slot)) more) =
            retain-WithinSlots slot more w in
          rw (many, with_new)
            (record {
              distinct = retain-Distinct (λ k b. not (ltb (k + bw_max_buckets) slot)) more d;
              past =
                  widen (slot - bw_max_buckets) 0 (suc slot) (suc slot)
                    (retain (λ k b. not (ltb (k + bw_max_buckets) slot)) more) (ground arith)
                    (ground arith) kept;
              few = one_more (
                  pruned_length slot (retain (λ k b. not (ltb (k + bw_max_buckets) slot)) more)
                    (retain-Distinct (λ k b. not (ltb (k + bw_max_buckets) slot)) more d) kept);
            })
    ]

-- The new bucket is there.
lookup-with_new :
    (slot : ℕ) (m : Map ℕ BwBucket) → Distinct m → lookup slot (with_new slot m) ≡ some empty_bucket
unfolding with_new
lookup-with_new slot m d =
    let more : Map ℕ BwBucket = insert slot empty_bucket m in
    let there : lookup slot more ≡ some empty_bucket =
      ground (arith, lookup-insert slot slot empty_bucket m, (==_iff slot slot).1 refl) in
    elim (Bool-cases (ltb (bw_max_buckets + 2) (length more))) [
      | inr small ↦ rw (small, with_new) there
      | inl many ↦
          rw (many, with_new)
            (lookup-retain (λ k b. not (ltb (k + bw_max_buckets) slot)) slot more
                (insert-Distinct slot empty_bucket m d)
              ∙ ground (arith, there))
    ]

-- An entry replaced
replace-IsBounded :
    (slot : ℕ) (b c : BwBucket) (m : Map ℕ BwBucket)
    → lookup slot m ≡ some c
    → IsBounded slot m
    → IsBounded slot (insert slot b m)
replace-IsBounded slot b c m e h = record {
  distinct = insert-Distinct slot b m h.distinct;
  past = insert-WithinSlots 0 (suc slot) slot b m (ground arith) (ground arith) h.past;
  few = ground (arith, length-insert slot b m, e, h.few);
}

account-IsBounded :
    (ip : Text) (n slot : ℕ) (m : Map ℕ BwBucket)
    → IsBounded slot m
    → IsBounded slot (account ip n slot m)
unfolding account
account-IsBounded ip n slot m h = elim (Option-cases (lookup slot m)) [
  | inr (b, e) ↦ rw (e, account) (replace-IsBounded slot (add_to ip n b) b m e h)
  | inl new ↦
      rw (new, account)
        (replace-IsBounded slot (add_to ip n empty_bucket) empty_bucket (with_new slot m)
          (lookup-with_new slot m h.distinct) (with_new-IsBounded slot m h))
]

later-IsBounded :
    (slot slot' : ℕ) (m : Map ℕ BwBucket) → slot ≤ slot' → IsBounded slot m → IsBounded slot' m
later-IsBounded slot slot' m h b = record {
  distinct = b.distinct;
  past = widen 0 0 (suc slot) (suc slot') m (ground arith) (ground (arith, h)) b.past;
  few = b.few;
}

record_traffic-IsBounded :
    (ip : Text) (n : ℤ) (now : ℕ) (t : Traffic)
    → IsBounded (now / bw_bucket_seconds) t.bw_buckets
    → IsBounded (now / bw_bucket_seconds) ((record_traffic ip n now t).bw_buckets)
unfolding record_traffic
record_traffic-IsBounded ip (negsuc n) now t h = h
record_traffic-IsBounded ip (pos zero) now t h = h
record_traffic-IsBounded ip (pos (suc n)) now t h =
    account-IsBounded (viewer ip) (suc n) (now / bw_bucket_seconds) t.bw_buckets h

-- The writes are in the order of their times, none before `now`; `last` is the time of the last one.
abbrev pub IsOrdered : ℕ → List Write → Type 0
IsOrdered now [] = Unit
IsOrdered now (w ∷ ws) = (now ≤ w.now) × IsOrdered w.now ws

abbrev pub last : ℕ → List Write → ℕ
last now [] = now
last now (w ∷ ws) = last w.now ws

-- While the clock does not run backwards, the history keeps one bucket to a slot, none of a later
-- slot, and at most two more than its thirty minutes have, whatever is written.
pub run-IsBounded :
    (ws : List Write) (now : ℕ) (t : Traffic)
    → IsOrdered now ws
    → IsBounded (now / bw_bucket_seconds) t.bw_buckets
    → IsBounded (last now ws / bw_bucket_seconds) ((run ws t).bw_buckets)
unfolding run
run-IsBounded [] now t o h = h
run-IsBounded (w ∷ ws) now t o h = run-IsBounded ws w.now (record_traffic w.ip w.n w.now t) (o.1) (
    record_traffic-IsBounded w.ip w.n w.now t (
      later-IsBounded (now / bw_bucket_seconds) (w.now / bw_bucket_seconds) t.bw_buckets
        (ground (arith, o.0)) h))
