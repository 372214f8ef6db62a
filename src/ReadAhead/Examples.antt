-- ===== src/ReadAhead/Examples.antt =====
-- A playlist of three segments.
use goflix.Base.{
  List, [], ◌∷◌, Bool, true, false, Text, codes, text_eq, text_key, ◌≡◌, ◌≢◌, refl, arith,
}
use mathlib.Core.List.{Memᴰ}
use goflix.Base.Map.{lookup}
use goflix.BodyCache.{BodyCache, new_body_cache, get, find_entry}
use goflix.BodyCache.Bound as Bodies
use goflix.ReadAhead.{
  StreamWarmer, new_warmer, is_inflight, is_backing_off, max_inflight, window_size, window,
  pump_prefetch, download_ended,
}
use goflix.ReadAhead.Window.{is_among}
use goflix.ReadAhead.Progress.{pump_starts, download_ended-rests}
use goflix.ReadAhead.Cursor as Cursor

abbrev three : List Text
three = codes "a" ∷ codes "b" ∷ codes "c" ∷ []

abbrev quiet : Text → Bool
quiet raw = false

abbrev empty : BodyCache
empty = new_body_cache 100

empty-IsValid : Bodies.IsValid empty
unfolding new_body_cache
empty-IsValid = record { counted = refl; distinct = tt; bounded = ground arith }

abbrev ready : StreamWarmer
ready = record {
  segments = three;
  index = (codes "a", 0) ∷ (codes "b", 1) ∷ (codes "c", 2) ∷ [];
  served = 1;
  inflight = (codes "b", true) ∷ [];
  failed_at = [];
}

pump_starts_example : (pump_prefetch quiet 9 0 ready empty).2 ≢ []
unfolding window window_size is_inflight lookup text_eq get find_entry is_backing_off new_body_cache
    max_inflight
pump_starts_example =
    pump_starts quiet 9 0 ready empty (codes "c") empty-IsValid (Memᴰ.tail (Memᴰ.head refl))
      (refl, refl, refl, refl) (ground arith)

download_ended-rests_example :
    (is_inflight (codes "b") ((download_ended (codes "b") true 5 ready).inflight) ≡ false)
    × (is_among
          (codes "b")
          ((pump_prefetch quiet 9 0 (download_ended (codes "b") true 5 ready) empty).2)
        ≡ false)
download_ended-rests_example =
    download_ended-rests quiet 5 9 0 ready empty (codes "b") empty-IsValid (ground arith)

new_warmer-IsValid : Cursor.IsValid new_warmer
new_warmer-IsValid = record {
  within = ground arith;
  indexed = λ raw i e. absurd (unfold lookup in ground (arith, e));
}

abbrev events : List Cursor.Event
events = Cursor.registered three ∷ Cursor.handed (codes "b") ∷ Cursor.pumped quiet 9 1 empty ∷ []

run-IsValid_example : Cursor.IsValid (Cursor.run events new_warmer)
run-IsValid_example = Cursor.run-IsValid events new_warmer new_warmer-IsValid
