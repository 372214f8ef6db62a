-- ===== src/Traffic.antt =====
-- The bandwidth history of the dashboard: `recordTraffic` of internal/mediaresolver/streams.go. Counts of bytes are 64-bit integers that wrap
-- around, as numbers below 2^64; slots are numbers.
pub mod Totals
pub mod Slots
mod Examples
use goflix.Base.{
  List, [], ◌∷◌, ◌++◌, ℕ, zero, suc, ◌+◌, ◌-◌, ◌*◌, ◌/◌, ◌%◌, ◌^◌, Bool, true, false, ◌&&◌, ◌||◌,
  not, Option, none, some, Text, codes, text_eq, text_key, nat_eq, ◌==◌, ltb, leb, length,
  if◌then◌else◌,
}
use goflix.Base.Int.{ℤ, pos, negsuc}
use goflix.Base.Map.{Map, lookup, insert, retain}

abbrev pub bw_bucket_seconds : ℕ
bw_bucket_seconds = 5

abbrev pub bw_max_buckets : ℕ
bw_max_buckets = 30 * 60 / 5

-- `int64`
abbrev pub wrap : ℕ → ℕ
wrap n = n % 2 ^ 64

pub record BwBucket : Type 0 where
  pub total : ℕ
  pub per_ip : Map Text ℕ

abbrev pub empty_bucket : BwBucket
empty_bucket = record { total = 0; per_ip = [] }

abbrev pub count_of : Text → Map Text ℕ → ℕ
count_of ip m = elim (lookup ip m) [ none ↦ 0 | some n ↦ n ]

-- `b.total += n; b.perIP[ip] += n`
unfoldable pub add_to : Text → ℕ → BwBucket → BwBucket
add_to ip n b = record {
  total = wrap (b.total + n);
  per_ip = insert ip (wrap (count_of ip b.per_ip + n)) b.per_ip;
}

-- The buckets with the new one of `slot`: the expired ones are deleted when there are too many.
unfoldable pub with_new : ℕ → Map ℕ BwBucket → Map ℕ BwBucket
with_new slot buckets =
    let more = insert slot empty_bucket buckets in
    if ltb (bw_max_buckets + 2) (length more)
    then retain (λ k b. not (ltb (k + bw_max_buckets) slot)) more
    else more

-- What the session has served, and the buckets.
pub record Traffic : Type 0 where
  pub bytes_served : ℕ
  pub bw_buckets : Map ℕ BwBucket

abbrev unknown_ip : Text
unknown_ip = codes "unknown"

abbrev pub viewer : Text → Text
viewer ip = if text_eq ip [] then unknown_ip else ip

unfoldable pub account : Text → ℕ → ℕ → Map ℕ BwBucket → Map ℕ BwBucket
account ip n slot buckets = elim (lookup slot buckets) [
  | some b ↦ insert slot (add_to ip n b) buckets
  | none ↦ insert slot (add_to ip n empty_bucket) (with_new slot buckets)
]

unfoldable pub record_traffic : Text → ℤ → ℕ → Traffic → Traffic
record_traffic ip (negsuc n) now t = t
record_traffic ip (pos zero) now t = t
record_traffic ip (pos (suc n)) now t = record {
  bytes_served = wrap (t.bytes_served + suc n);
  bw_buckets = account (viewer ip) (suc n) (now / bw_bucket_seconds) t.bw_buckets;
}
