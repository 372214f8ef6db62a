-- ===== src/Traffic/Examples.antt =====
-- Two writes of one viewer.
use goflix.Base.{List, [], ◌∷◌, ◌/◌, codes, arith}
use goflix.Base.Int.{pos}
use goflix.Traffic.{Traffic, bw_bucket_seconds}
use goflix.Traffic.Totals.{Write, run, Balanced, run-Balanced}
use goflix.Traffic.Slots.{IsBounded, last, run-IsBounded}

abbrev silent : Traffic
silent = record { bytes_served = 0; bw_buckets = [] }

abbrev writes : List Write
writes =
    record { ip = codes "1.2.3.4"; n = pos 9; now = 12 }
    ∷ record { ip = codes "1.2.3.4"; n = pos 5; now = 14 }
    ∷ record { ip = codes ""; n = pos 2; now = 20 }
    ∷ []

run-Balanced_example : Balanced ((run writes silent).bw_buckets)
run-Balanced_example = run-Balanced writes silent tt

silent-IsBounded : IsBounded (10 / bw_bucket_seconds) []
silent-IsBounded = record { distinct = tt; past = tt; few = ground arith }

run-IsBounded_example :
    IsBounded (last 10 writes / bw_bucket_seconds) ((run writes silent).bw_buckets)
run-IsBounded_example =
    run-IsBounded writes 10 silent (ground arith, (ground arith, (ground arith, tt)))
      silent-IsBounded
