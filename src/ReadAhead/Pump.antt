-- ===== src/ReadAhead/Pump.antt =====
-- What `pumpPrefetch` starts.
use goflix.Base.{
  sublist_nil, [], ℕ, ◌≤◌, Bool, false, ◌||◌, Text, text_key, ◌==◌, length, ◌≡◌, refl, inl, inr,
  All, Bool-cases, arith,
}
use mathlib.Core.List.{Sublistᴰ}
use goflix.BodyCache.{BodyCache}
use goflix.BodyCache.Bound.{IsValid}
use goflix.ReadAhead.{
  StreamWarmer, is_inflight, max_inflight, window, Pumping, pump_loop, pump_prefetch,
}
use goflix.ReadAhead.Window.{is_among, NoRepeat, IsWanted, pump_loop-IsPumped}

abbrev pub from_warmer : StreamWarmer → BodyCache → Pumping
from_warmer w cache = record {
  marked = w.inflight;
  cache = cache;
  inflight_count = 0;
  targets = [];
}

-- The loop that a `pumpPrefetch` runs over the window
abbrev pub looped : (Text → Bool) → ℕ → ℕ → StreamWarmer → BodyCache → Pumping
looped busy now live_fetches w cache =
    pump_loop busy now w.failed_at (max_inflight w.served live_fetches) (window w)
      (from_warmer w cache)

pub pump_prefetch-loop :
    (busy : Text → Bool) (now live_fetches : ℕ) (w : StreamWarmer) (cache : BodyCache)
    → (length w.segments == 0) ≡ false
    → pump_prefetch busy now live_fetches w cache ≡ (
      record w { inflight = (looped busy now live_fetches w cache).marked },
      (looped busy now live_fetches w cache).cache,
      (looped busy now live_fetches w cache).targets,
    )
unfolding pump_prefetch
pump_prefetch-loop busy now live_fetches w cache e = rw (e, pump_prefetch) refl

pub pump_prefetch_lem :
    (busy : Text → Bool) (now live_fetches : ℕ) (w : StreamWarmer) (cache : BodyCache)
    → IsValid cache
    → let r = pump_prefetch busy now live_fetches w cache in
      Sublistᴰ (r.2) (window w)
      × NoRepeat (r.2)
      × All (IsWanted busy now w.failed_at w.inflight cache) (r.2)
      × (length (r.2) ≤ max_inflight w.served live_fetches)
      × ((raw : Text)
          → is_inflight raw r.0.inflight ≡ is_inflight raw w.inflight || is_among raw (r.2))
unfolding pump_prefetch
pump_prefetch_lem busy now live_fetches w cache v = elim (Bool-cases (length w.segments == 0)) [
  | inl nothing ↦
      rw (nothing, pump_prefetch)
        (sublist_nil (window w), tt, tt, ground arith, λ raw. ground arith)
  | inr e ↦
      let h =
        pump_loop-IsPumped busy now w.failed_at (max_inflight w.served live_fetches) (window w)
          (from_warmer w cache) v in
      rw (pump_prefetch-loop busy now live_fetches w cache e)
        (rw (h.appended) (h.in_order, h.distinct, h.wanted, ground (arith, h.few), h.now_marked))
]
