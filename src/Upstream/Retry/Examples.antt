-- ===== src/Upstream/Retry/Examples.antt =====
-- The retry loop at concrete inputs: a host that answers 503, and a player that leaves.
use goflix.Base.{◌≡◌, refl, ◌||◌, ◌&&◌, Bool, true, false, some}
use goflix.Upstream.Throttle.{HostThrottle}
use goflix.Upstream.Retry.{
  Response, answered, transport_error, World, Trace, do_with_retry, retryable_upstream_status,
}
use goflix.Upstream.Retry.Final.{
  IsFinal, is_nil, is_silent, goes_on, do_with_retry-IsFinal, do_with_retry_nil,
}

abbrev busy : Response
busy = record { status = 503; retry_after = 0 }

abbrev world : Bool → World
world left = record {
  attempt = λ n. answered busy;
  clock = λ n. 0;
  gone = λ n. left;
  cut_short = λ n. false;
  why = transport_error;
}

abbrev calm : HostThrottle
calm = record { strikes = 0; until = 0 }

do_with_retry-IsFinal_example :
    (t : Trace) × (do_with_retry (world false) calm ≡ some t) × IsFinal (world false) t
do_with_retry-IsFinal_example = do_with_retry-IsFinal (world false) calm

do_with_retry_nil_example :
    (t : Trace) × (do_with_retry (world true) calm ≡ some t)
    × (is_nil t.outcome
        ≡ is_silent (world true) 1 || (goes_on (world true) 1 && is_silent (world true) 2))
do_with_retry_nil_example = do_with_retry_nil (world true) calm

-- A player that leaves behind the first answer of a busy host gets nothing at all.
left_early : is_silent (world true) 1 ≡ true
unfolding retryable_upstream_status
left_early = refl
