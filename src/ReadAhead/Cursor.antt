-- ===== src/ReadAhead/Cursor.antt =====
-- The cursor and the index of a session's segments.
use goflix.Base.{
  List, [], ◌∷◌, ℕ, zero, suc, ◌+◌, ◌≤◌, ◌<◌, Bool, true, false, some, Text, text_eq, text_eq_iff,
  text_key, ltb, ◌==◌, is_some, length, get_elem?, if◌then◌else◌, ◌≡◌, ap, ◌∙◌, inl, inr,
  Bool-cases, Option-cases, arith,
}
use goflix.Base.Map.{Map, lookup, insert, lookup-insert}
use goflix.BodyCache.{BodyCache}
use goflix.ReadAhead.{
  StreamWarmer, pump_prefetch, download_ended, index_from, register_segments, note_segment_served,
}

-- The cursor stands within the playlist, and the index leads to segments of it.
pub record IsValid (w : StreamWarmer) : Type 0 where
  pub within : w.served ≤ length w.segments
  pub indexed :
      (raw : Text) (i : ℕ) → lookup raw w.index ≡ some i → get_elem? w.segments i ≡ some raw

get_elem?-lt : {A : Type 0} (xs : List A) (i : ℕ) (x : A) → get_elem? xs i ≡ some x → i < length xs
get_elem?-lt [] i x e = absurd (ground (arith, e))
get_elem?-lt (y ∷ xs) zero x e = ground arith
get_elem?-lt (y ∷ xs) (suc i) x e = ground (arith, get_elem?-lt xs i x e)

-- The index over the URLs from `i` on, into a playlist `all` whose rest they are.
index_from-IsIndex :
    (urls all : List Text) (i : ℕ) (m : Map Text ℕ)
    → ((j : ℕ) → get_elem? all (i + j) ≡ get_elem? urls j)
    → ((raw : Text) (k : ℕ) → lookup raw m ≡ some k → get_elem? all k ≡ some raw)
    → (raw : Text) (k : ℕ) → lookup raw (index_from i urls m) ≡ some k
    → get_elem? all k ≡ some raw
unfolding index_from
index_from-IsIndex [] all i m rest known = known
index_from-IsIndex (u ∷ us) all i m rest known =
    index_from-IsIndex us all (suc i) (if is_some (lookup u m) then m else insert u i m)
      (λ j. ap (λ n. get_elem? all n) (omega arith) ∙ rest (suc j))
      (λ raw k e. elim (Bool-cases (is_some (lookup u m))) [
        | inl old ↦ known raw k (ground (arith, old, e))
        | inr new ↦ elim (Bool-cases (text_eq u raw)) [
          | inl same ↦
              let here : get_elem? all i ≡ some u =
                ap (λ n. get_elem? all n) (omega arith) ∙ rest 0 in
              ground
                (arith, new, same, (text_eq_iff u raw).0 same, e, lookup-insert u raw i m, here)
          | inr apart ↦ known raw k (ground (arith, new, apart, e, lookup-insert u raw i m))
        ]
      ])

register_segments-IsValid :
    (urls : List Text) (w : StreamWarmer) → IsValid w → IsValid (register_segments urls w)
unfolding register_segments
register_segments-IsValid [] w v = v
register_segments-IsValid (u ∷ us) w v = record {
  within = ground arith;
  indexed =
      index_from-IsIndex (u ∷ us) (u ∷ us) 0 [] (λ j. ap (λ n. get_elem? (u ∷ us) n) (omega arith))
        (λ raw k e. absurd (unfold lookup in ground (arith, e)));
}

note_segment_served-IsValid :
    (raw : Text) (w : StreamWarmer) → IsValid w → IsValid (note_segment_served raw w)
unfolding note_segment_served
note_segment_served-IsValid raw w v = elim (Option-cases (lookup raw w.index)) [
  | inl unknown ↦ rw (unknown, note_segment_served) v
  | inr (i, e) ↦ elim (Bool-cases (ltb w.served (suc i))) [
    | inr behind ↦ rw (e, note_segment_served) (rw behind v)
    | inl ahead ↦
        rw (e, note_segment_served)
          (rw ahead (record {
            within = ground (arith, get_elem?-lt w.segments i raw (v.indexed raw i e));
            indexed = v.indexed;
          }))
  ]
]

-- What happens to a warmer: a playlist is read, a segment is handed to the player, the pump runs, and
-- a download ends.
pub data Event : Type 0 where
  registered : List Text → Event
  handed : Text → Event
  pumped : (Text → Bool) → ℕ → ℕ → BodyCache → Event
  ended : Text → Bool → ℕ → Event

unfoldable pub after : Event → StreamWarmer → StreamWarmer
after (registered urls) w = register_segments urls w
after (handed raw) w = note_segment_served raw w
after (pumped busy now live cache) w = (pump_prefetch busy now live w cache).0
after (ended target failed now) w = download_ended target failed now w

unfoldable pub run : List Event → StreamWarmer → StreamWarmer
run [] w = w
run (e ∷ es) w = run es (after e w)

after-IsValid : (e : Event) (w : StreamWarmer) → IsValid w → IsValid (after e w)
unfolding after pump_prefetch download_ended
after-IsValid (registered urls) w v = register_segments-IsValid urls w v
after-IsValid (handed raw) w v = note_segment_served-IsValid raw w v
after-IsValid (pumped busy now live cache) w v = elim (Bool-cases (length w.segments == 0)) [
  | inl empty ↦ rw (empty, after, pump_prefetch) v
  | inr some_there ↦
      rw (some_there, after, pump_prefetch) (record { within = v.within; indexed = v.indexed })
]
after-IsValid (ended target true now) w v = record { within = v.within; indexed = v.indexed }
after-IsValid (ended target false now) w v = record { within = v.within; indexed = v.indexed }

-- However playlists, segments handed to the player, pumps and ends of downloads follow one another,
-- the cursor of a warmer that starts new stays within its playlist, and its index leads from a URL
-- to a position at which the playlist has it.
pub run-IsValid : (es : List Event) (w : StreamWarmer) → IsValid w → IsValid (run es w)
unfolding run
run-IsValid [] w v = v
run-IsValid (e ∷ es) w v = run-IsValid es (after e w) (after-IsValid e w v)
