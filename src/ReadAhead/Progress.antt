-- ===== src/ReadAhead/Progress.antt =====
-- The read-ahead goes on: a wanted segment gets a download, and a failed one rests first.
use goflix.Base.{
  List, [], ◌∷◌, ◌++◌, ℕ, suc, ◌+◌, ◌<◌, Bool, true, false, ◌||◌, Text, text_eq, text_eq_iff,
  text_key, leb, ◌==◌, is_some, length, take, drop, zero, if◌then◌else◌, ◌≡◌, ◌≢◌, refl, sym, ap,
  ◌∙◌, inl, inr, All, Bool-cases, arith,
}
use mathlib.Core.List.{Memᴰ}
use goflix.Base.Map.{Map, insert, lookup-insert, lookup-erase}
use goflix.BodyCache.{BodyCache, get}
use goflix.BodyCache.Bound.{IsValid, get-IsValid}
use goflix.BodyCache.Contents.{get-get}
use goflix.ReadAhead.{
  StreamWarmer, prefetch_failure_backoff, is_inflight, is_backing_off, max_inflight, window_size,
  window, Pumping, consider, pump_loop, pump_prefetch, download_ended,
}
use goflix.ReadAhead.Pump.{from_warmer, pump_prefetch-loop, pump_prefetch_lem}
use goflix.ReadAhead.Window.{is_among, IsWanted, pump_loop-IsPumped}

-- How many entries of a row are in flight
abbrev pub flying : Map Text Bool → List Text → ℕ
flying marked [] = 0
flying marked (raw ∷ rest) =
    if is_inflight raw marked then suc (flying marked rest) else flying marked rest

module _ (busy : Text → Bool) (now : ℕ) (failed : Map Text ℕ) (most : ℕ) where
  grown :
      (t : Text) (ts rest : List Text) (p : Pumping)
      → IsValid p.cache
      → p.targets ≡ t ∷ ts
      → (pump_loop busy now failed most rest p).targets ≢ []
  grown t ts rest p v e gone =
      let h = pump_loop-IsPumped busy now failed most rest p v in
      let some_left : (t ∷ ts) ++ h.new ≡ [] =
        ap (λ l. l ++ h.new) (sym e) ∙ (sym h.appended ∙ gone) in
      ground (arith, some_left)

  abbrev started_with : Text → Pumping → Pumping
  started_with x p = record p {
    cache = (get p.cache x now).0;
    marked = insert x true p.marked;
    targets = p.targets ++ x ∷ [];
  }

  loop_starts :
      (raw : Text) (rest : List Text) (p : Pumping)
      → IsValid p.cache
      → Memᴰ raw rest
      → IsWanted busy now failed p.marked p.cache raw
      → p.inflight_count + flying p.marked rest < most
      → p.targets ≡ []
      → (pump_loop busy now failed most rest p).targets ≢ []
  unfolding pump_loop consider
  loop_starts raw [] p v m w room none_yet = elim m [ ]
  loop_starts raw (x ∷ rest) p v m w room none_yet = elim (Bool-cases (is_inflight x p.marked)) [
    | inl flies ↦
        let others : Memᴰ raw rest = elim m [
          | Memᴰ.head e ↦ absurd (ground (arith, e, flies, w.0))
          | Memᴰ.tail d ↦ d
        ] in
        rw (flies, pump_loop)
          (loop_starts raw rest (record p { inflight_count = suc p.inflight_count }) v others w
            (ground (arith, room, flies)) none_yet)
    | inr idle ↦
        let free : leb most (p.inflight_count + length p.targets) ≡ false =
          rw none_yet (ground (arith, room)) in
        rw (idle, pump_loop)
          (rw free
            (elim (Bool-cases
              (is_some ((get p.cache x now).1) || (busy x || is_backing_off now x failed))) [
                | inl skip ↦
                    let others : Memᴰ raw rest = elim m [
                      | Memᴰ.head e ↦ absurd (ground (arith, e, skip, w.1, w.2, w.3))
                      | Memᴰ.tail d ↦ d
                    ] in
                    rw (skip, consider)
                      (loop_starts raw rest (record p { cache = (get p.cache x now).0 })
                        (get-IsValid p.cache x now v) others
                        (w.0, get-get p.cache x raw now v ∙ w.1, w.2, w.3)
                        (ground (arith, room, idle)) none_yet)
                | inr go ↦
                    rw (go, consider)
                      (grown x [] rest (started_with x p) (get-IsValid p.cache x now v)
                        (ap (λ l. l ++ x ∷ []) none_yet))
              ]))
  ]

nothing_behind :
    (segments : List Text) (n s : ℕ) (raw : Text)
    → (length segments == 0) ≡ true
    → Memᴰ raw (take n (drop s segments))
    → ⊥
nothing_behind [] zero zero raw e m = elim m [ ]
nothing_behind [] zero (suc s) raw e m = elim m [ ]
nothing_behind [] (suc n) zero raw e m = elim m [ ]
nothing_behind [] (suc n) (suc s) raw e m = elim m [ ]
nothing_behind (x ∷ xs) n s raw e m = absurd (ground (arith, e))

no_window :
    (w : StreamWarmer) (raw : Text) → (length w.segments == 0) ≡ true → Memᴰ raw (window w) → ⊥
unfolding window
no_window w raw e m = nothing_behind w.segments (window_size w) w.served raw e m

among_All :
    (P : Text → Type 0) (raw : Text) (ts : List Text) → is_among raw ts ≡ true → All P ts → P raw
among_All P raw [] e h = absurd (ground (arith, e))
among_All P raw (t ∷ ts) e h = elim (Bool-cases (text_eq t raw)) [
  | inl same ↦ let it : t ≡ raw = (text_eq_iff t raw).0 same in rw (← it) (h.0)
  | inr apart ↦ among_All P raw ts (ground (arith, apart, e)) (h.1)
]

-- A segment of the window that the read-ahead wants does not wait for nothing: unless as many
-- segments of the window are in flight as the parallelism allows, the pump starts a download.
pub pump_starts :
    (busy : Text → Bool) (now live_fetches : ℕ) (w : StreamWarmer) (cache : BodyCache) (raw : Text)
    → IsValid cache
    → Memᴰ raw (window w)
    → IsWanted busy now w.failed_at w.inflight cache raw
    → flying w.inflight (window w) < max_inflight w.served live_fetches
    → (pump_prefetch busy now live_fetches w cache).2 ≢ []
pump_starts busy now live_fetches w cache raw v m wanted room =
    elim (Bool-cases (length w.segments == 0)) [
      | inl nothing ↦ absurd (no_window w raw nothing m)
      | inr e ↦ rw (pump_prefetch-loop busy now live_fetches w cache e) (
          loop_starts busy now w.failed_at (max_inflight w.served live_fetches) raw (window w)
            (from_warmer w cache) v m wanted (ground (arith, room)) refl)
    ]

-- A segment whose download failed rests: the next pump does not start it again within thirty seconds, nor does it
-- count as in flight.
pub download_ended-rests :
    (busy : Text → Bool) (t now live_fetches : ℕ) (w : StreamWarmer) (cache : BodyCache)
    (raw : Text)
    → IsValid cache
    → now < t + prefetch_failure_backoff
    → (is_inflight raw ((download_ended raw true t w).inflight) ≡ false)
      × (is_among raw ((pump_prefetch busy now live_fetches (download_ended raw true t w) cache).2)
          ≡ false)
unfolding download_ended
download_ended-rests busy t now live_fetches w cache raw v soon = (
  unfold is_inflight in
      ground (arith, lookup-erase raw raw w.inflight, (text_eq_iff raw raw).1 refl),
  elim (Bool-cases (is_among raw ((pump_prefetch busy now live_fetches w' cache).2))) [
    | inr rests ↦ rests
    | inl started ↦
        let wanted : IsWanted busy now w'.failed_at w'.inflight cache raw =
          among_All (IsWanted busy now w'.failed_at w'.inflight cache) raw
            ((pump_prefetch busy now live_fetches w' cache).2) started
            ((pump_prefetch_lem busy now live_fetches w' cache v).2) in
        absurd (
          unfold is_backing_off in
          ground (
            arith,
            wanted.3,
            lookup-insert raw raw t w.failed_at,
            (text_eq_iff raw raw).1 refl,
            soon,
          ))
  ],
)
  where
    w' : StreamWarmer
    w' = download_ended raw true t w
