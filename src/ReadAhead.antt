-- ===== src/ReadAhead.antt =====
-- The read-ahead of a session: `streamWarmer` and `pumpPrefetch` of internal/mediaresolver/warmer.go,
-- `registerSegments` and `noteSegmentServed` of cache.go. The lock `w.mu` makes each of them one step.
-- Times are nanoseconds; whether another goroutine downloads a segment (`r.inflight`) is a parameter.
pub mod Window
pub mod Pump
pub mod Progress
pub mod Cursor
mod Examples
use goflix.Base.{
  List, [], ◌∷◌, ◌++◌, ℕ, suc, ◌+◌, ◌-◌, ◌*◌, ◌^◌, Bool, true, false, ◌||◌, ◌&&◌, Option, none,
  some, Text, text_key, ltb, leb, ◌==◌, is_some, length, take, drop, if◌then◌else◌,
}
use goflix.Base.Map.{Map, lookup, insert, erase}
use goflix.BodyCache.{BodyCache, get}

abbrev pub prefetch_lookahead : ℕ
prefetch_lookahead = 24

abbrev pub prefetch_max_inflight : ℕ
prefetch_max_inflight = 6

abbrev pub prefetch_initial_inflight : ℕ
prefetch_initial_inflight = 4

abbrev pub prefetch_live_max_inflight : ℕ
prefetch_live_max_inflight = 3

abbrev pub prefetch_failure_backoff : ℕ
prefetch_failure_backoff = 30 * 10 ^ 9

-- `streamWarmer`, less its context.
pub record StreamWarmer : Type 0 where
  pub segments : List Text
  pub index : Map Text ℕ
  pub served : ℕ
  pub inflight : Map Text Bool
  pub failed_at : Map Text ℕ

-- `ensureWarmer`'s new warmer
abbrev pub new_warmer : StreamWarmer
new_warmer = record { segments = []; index = []; served = 0; inflight = []; failed_at = [] }

-- `w.inflight[raw]`
unfoldable pub is_inflight : Text → Map Text Bool → Bool
is_inflight raw m = elim (lookup raw m) [ none ↦ false | some b ↦ b ]

-- `t, bad := w.failedAt[raw]; bad && now.Sub(t) < prefetchFailureBackoff`
unfoldable pub is_backing_off : ℕ → Text → Map Text ℕ → Bool
is_backing_off now raw m = elim (lookup raw m) [
  | none ↦ false
  | some t ↦ ltb (now - t) prefetch_failure_backoff
]

unfoldable pub max_inflight : ℕ → ℕ → ℕ
max_inflight served live_fetches =
    let most = if served == 0 then prefetch_initial_inflight else prefetch_max_inflight in
    if ltb 0 live_fetches && ltb prefetch_live_max_inflight most
    then prefetch_live_max_inflight
    else most

-- `windowEnd - w.served`
unfoldable pub window_size : StreamWarmer → ℕ
window_size w =
    let reach = w.served + prefetch_lookahead in
    let window_end = if ltb (length w.segments) reach then length w.segments else reach in
    window_end - w.served

-- `w.segments[w.served:windowEnd]`
unfoldable pub window : StreamWarmer → List Text
window w = take (window_size w) (drop w.served w.segments)

-- The variables of the loop: `w.inflight`, the body cache, `inflightCount` and `targets`.
pub record Pumping : Type 0 where
  pub marked : Map Text Bool
  pub cache : BodyCache
  pub inflight_count : ℕ
  pub targets : List Text

module _ (busy : Text → Bool) (now : ℕ) (failed : Map Text ℕ) (most : ℕ) where
  -- The loop's body behind its `break`: the segment is started or passed over.
  unfoldable pub consider : Text → Pumping → Pumping
  consider raw p =
      let (cache, cached) = get p.cache raw now in
      if is_some cached || (busy raw || is_backing_off now raw failed)
      then record p { cache = cache }
      else record p {
        cache = cache;
        marked = insert raw true p.marked;
        targets = p.targets ++ raw ∷ [];
      }

  unfoldable pub pump_loop : List Text → Pumping → Pumping
  pump_loop [] p = p
  pump_loop (raw ∷ rest) p = elim (is_inflight raw p.marked) [
    | true ↦ pump_loop rest (record p { inflight_count = suc p.inflight_count })
    | false ↦ elim (leb most (p.inflight_count + length p.targets)) [
      | true ↦ p
      | false ↦ pump_loop rest (consider raw p)
    ]
  ]

-- `pumpPrefetch` up to its goroutines: the warmer, the cache and the segments to start.
unfoldable pub pump_prefetch :
    (Text → Bool) → ℕ → ℕ → StreamWarmer → BodyCache → StreamWarmer × BodyCache × List Text
pump_prefetch busy now live_fetches w cache = elim (length w.segments == 0) [
  | true ↦ (w, cache, [])
  | false ↦
      let p =
        pump_loop busy now w.failed_at (max_inflight w.served live_fetches) (window w)
          (record { marked = w.inflight; cache = cache; inflight_count = 0; targets = [] }) in
      (record w { inflight = p.marked }, p.cache, p.targets)
]

-- A download's end, with its error or without one
unfoldable pub download_ended : Text → Bool → ℕ → StreamWarmer → StreamWarmer
download_ended target failed now w =
    let w' : StreamWarmer = record w { inflight = erase target w.inflight } in
    if failed then record w' { failed_at = insert target now w'.failed_at } else w'

-- The first position of each URL
unfoldable pub index_from : ℕ → List Text → Map Text ℕ → Map Text ℕ
index_from i [] m = m
index_from i (u ∷ us) m = index_from (suc i) us (if is_some (lookup u m) then m else insert u i m)

-- `registerSegments`, behind its reading of the playlist
unfoldable pub register_segments : List Text → StreamWarmer → StreamWarmer
register_segments [] w = w
register_segments (u ∷ us) w = record w {
  segments = u ∷ us;
  index = index_from 0 (u ∷ us) [];
  served = if ltb (length (u ∷ us)) w.served then length (u ∷ us) else w.served;
}

unfoldable pub note_segment_served : Text → StreamWarmer → StreamWarmer
note_segment_served raw w = elim (lookup raw w.index) [
  | none ↦ w
  | some i ↦ if ltb w.served (suc i) then record w { served = suc i } else w
]
