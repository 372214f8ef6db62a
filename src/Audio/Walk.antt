-- ===== src/Audio/Walk.antt =====
-- The walk reads within the buffer, ends, and reports a chain that is really there.
use goflix.Base.{
  [], ◌∷◌, ℕ, zero, suc, ◌+◌, ◌*◌, ◌/◌, ◌%◌, ◌≤◌, ◌<◌, Bool, true, false, ◌||◌, ◌&&◌, Option, none,
  some, Text, ◌==◌, ltb, leb, length, get_elem?, if◌then◌else◌, ◌≡◌, refl, ◌⊎◌, inl, inr,
  Bool-cases, Option-cases, arith,
}
use goflix.Audio.{
  adts_sample_rates, ◌then_let◌, is_sync, frame_length, chain, AdtsTrack, no_track, candidate,
  walk_from, walk_adts,
}

pub get_elem?_total : (xs : Text) (i : ℕ) → i < length xs → (x : ℕ) × (get_elem? xs i ≡ some x)
get_elem?_total [] i h = absurd (ground (arith, h))
get_elem?_total (x ∷ xs) zero h = (x, refl)
get_elem?_total (x ∷ xs) (suc i) h = get_elem?_total xs i (ground (arith, h))

if_some : (b x y : Bool) → (z : Bool) × ((if b then some x else some y) ≡ some z)
if_some true x y = (x, refl)
if_some false x y = (y, refl)

is_sync_total :
    (audio : Text) (i : ℕ) → i + 1 < length audio → (b : Bool) × (is_sync audio i ≡ some b)
unfolding is_sync
is_sync_total audio i h =
    let (a, e) = get_elem?_total audio i (ground (arith, h)) in
    let (b, f) = get_elem?_total audio (i + 1) h in
    rw e (rw f (if_some (a == 255) (b / 16 == 15 && b / 2 % 4 == 0) false))

frame_length_total :
    (audio : Text) (i : ℕ) → i + 5 < length audio → (l : ℕ) × (frame_length audio i ≡ some l)
unfolding frame_length
frame_length_total audio i h =
    let (d, e) = get_elem?_total audio (i + 3) (ground (arith, h)) in
    let (x, f) = get_elem?_total audio (i + 4) (ground (arith, h)) in
    let (y, g) = get_elem?_total audio (i + 5) h in
    (d % 4 * 2048 + x * 8 + y / 32, rw e (rw f (rw g refl)))

-- A chain of `f` frames and `b` bytes, counted on from `frames` and `bytes` at `pos`: seven bytes to a
-- frame at least, and no byte behind the buffer.
abbrev IsCounted : Text → ℕ → ℕ → ℕ → ℕ × ℕ → Type 0
IsCounted audio pos frames bytes (f, b) =
    (frames ≤ f) × (7 * f + bytes ≤ b + 7 * frames) × (b + pos ≤ bytes + length audio)

chain-IsCounted :
    (fuel : ℕ) (audio : Text) (pos frames bytes : ℕ)
    → pos ≤ length audio
    → length audio < fuel + pos
    → (r : ℕ × ℕ) × (chain fuel audio pos frames bytes ≡ some r)
      × IsCounted audio pos frames bytes r
unfolding chain
chain-IsCounted zero audio pos frames bytes h k = absurd (ground (arith, h, k))
chain-IsCounted (suc fuel) audio pos frames bytes h k =
    elim (Bool-cases (leb (pos + 7) (length audio))) [
      | inr short ↦
          ((frames, bytes), rw (short, chain) refl, (ground arith, ground arith, ground (arith, h)))
      | inl room ↦
          let (sync, e) = is_sync_total audio pos (ground (arith, room)) in
          elim (Bool-cases sync) [
            | inr lost ↦ (
              (frames, bytes),
              rw (room, chain) (rw e (rw lost refl)),
              (ground arith, ground arith, ground (arith, h)),
            )
            | inl found ↦
                let (l, g) = frame_length_total audio pos (ground (arith, room)) in
                elim (Bool-cases (ltb l 7 || ltb (length audio) (pos + l))) [
                  | inl bad ↦ (
                    (frames, bytes),
                    rw (room, chain) (rw e (rw found (rw g (rw (bad, ◌then_let◌) refl)))),
                    (ground arith, ground arith, ground (arith, h)),
                  )
                  | inr good ↦
                      let (r, c, q) =
                        chain-IsCounted fuel audio (pos + l) (suc frames) (bytes + l)
                          (ground (arith, good)) (ground (arith, k, good)) in
                      (
                        r,
                        rw (room, chain) (rw e (rw found (rw g (rw (good, ◌then_let◌) c)))),
                        (ground (arith, q.0), ground (arith, q.1, good), ground (arith, q.2)),
                      )
                ]
          ]
    ]

-- A track that the walk reports: three frames or more, at least seven bytes to a frame, no more bytes
-- than the buffer has, and a rate of the table.
abbrev pub IsTrack : Text → AdtsTrack → Type 0
IsTrack audio r =
    (3 ≤ r.frames)
    × (7 * r.frames ≤ r.bytes)
    × (r.bytes ≤ length audio)
    × ((i : ℕ) × (get_elem? adts_sample_rates i ≡ some r.rate))

abbrev IsFound : Text → Option AdtsTrack → Type 0
IsFound audio none = Unit
IsFound audio (some r) = IsTrack audio r

candidate-IsFound :
    (audio : Text) (i : ℕ)
    → i + 7 < length audio
    → (o : Option AdtsTrack) × (candidate audio i ≡ some o) × IsFound audio o
unfolding candidate
candidate-IsFound audio i h =
    let (sync, e) = is_sync_total audio i (ground (arith, h)) in
    elim (Bool-cases sync) [
      | inr lost ↦ (none, rw (e, candidate) (rw lost refl), tt)
      | inl found ↦
          let (c, ec) = get_elem?_total audio (i + 2) (ground (arith, h)) in
          let (l, el) = frame_length_total audio i (ground (arith, h)) in
          elim (Bool-cases (ltb l 7 || (ltb (length audio) (i + l) || leb 13 (c / 4 % 16)))) [
            | inl bad ↦
                (none, rw (e, candidate) (rw found (rw ec (rw el (rw (bad, ◌then_let◌) refl)))), tt)
            | inr good ↦
                let (d, ed) = get_elem?_total audio (i + 3) (ground (arith, h)) in
                let (fb, ef, q) =
                  chain-IsCounted (suc (length audio)) audio i 0 0 (ground (arith, h))
                    (ground arith) in
                elim (Bool-cases (ltb (fb.0) 3)) [
                  | inl few ↦ (
                    none,
                    rw (e, candidate)
                        (rw found (
                          rw ec (
                            rw el (
                              rw (good, ◌then_let◌) (rw ed (rw ef (rw (few, ◌then_let◌) refl))))))),
                    tt,
                  )
                  | inr enough ↦
                      let (rate, er) =
                        get_elem?_total adts_sample_rates (c / 4 % 16) (ground (arith, good)) in
                      (
                        some (record {
                          frames = fb.0;
                          bytes = fb.1;
                          rate = rate;
                          channels = c % 2 * 4 + d / 64;
                        }),
                        rw (e, candidate)
                            (rw found (
                              rw ec (
                                rw el (
                                  rw (good, ◌then_let◌)
                                    (rw ed (rw ef (rw (enough, ◌then_let◌) (rw er refl)))))))),
                        (
                          ground (arith, enough),
                          ground (arith, q.1),
                          ground (arith, q.2),
                          (c / 4 % 16, er),
                        ),
                      )
                ]
          ]
    ]

walk_from_lem :
    (fuel : ℕ) (audio : Text) (i : ℕ)
    → i ≤ length audio
    → length audio < fuel + i
    → (r : AdtsTrack) × (walk_from fuel audio i ≡ some r) × ((r ≡ no_track) ⊎ IsTrack audio r)
unfolding walk_from
walk_from_lem zero audio i h k = absurd (ground (arith, h, k))
walk_from_lem (suc fuel) audio i h k = elim (Bool-cases (ltb (i + 7) (length audio))) [
  | inr over ↦ (no_track, rw (over, walk_from) refl, inl refl)
  | inl room ↦
      let (o, e, f) = candidate-IsFound audio i (ground (arith, room)) in
      elim (Option-cases o) [
        | inr (r, found) ↦ (r, rw (room, walk_from) (rw e (rw found refl)), inr (rw found at f))
        | inl nothing ↦
            let (r, w, q) =
              walk_from_lem fuel audio (suc i) (ground (arith, room)) (ground (arith, k)) in
            (r, rw (room, walk_from) (rw e (rw nothing w)), q)
      ]
]

-- `walkADTS` reads within the buffer and ends, on any bytes: it reports no track at all, or a chain
-- of three frames or more whose bytes, at least seven to a frame, fit in the buffer, at a rate of the
-- table.
pub walk_adts_lem :
    (audio : Text)
    → (r : AdtsTrack) × (walk_adts audio ≡ some r) × ((r ≡ no_track) ⊎ IsTrack audio r)
unfolding walk_adts
walk_adts_lem audio = walk_from_lem (suc (length audio)) audio 0 (ground arith) (ground arith)
