-- ===== src/Audio.antt =====
-- The measuring of muxed audio: `demuxAudioPES` and `walkADTS` of internal/mediaresolver/audio.go.
-- An index out of range, at which Go panics, is `none`; so is a loop that would run out of fuel.
pub mod Walk
pub mod Demux
mod Examples
use goflix.Base.{
  List, [], ◌∷◌, ◌++◌, ℕ, zero, suc, ◌+◌, ◌*◌, ◌/◌, ◌%◌, Bool, true, false, ◌||◌, ◌&&◌, Option,
  none, some, Text, ◌==◌, ltb, leb, length, get_elem?, take, drop, if◌then◌else◌, not,
}

abbrev pub adts_sample_rates : List ℕ
adts_sample_rates =
    96000 ∷ 88200 ∷ 64000 ∷ 48000 ∷ 44100 ∷ 32000 ∷ 24000 ∷ 22050 ∷ 16000 ∷ 12000 ∷ 11025 ∷ 8000
    ∷ 7350 ∷ []

infixl 20 ◌then_let◌
abbrev pub ◌then_let◌ : {A B : Type 0} → Option A → (A → Option B) → Option B
none then_let f = none
some a then_let f = f a

-- `audio[i] == 0xFF && audio[i+1]&0xF6 == 0xF0`
unfoldable pub is_sync : Text → ℕ → Option Bool
is_sync audio i = get_elem? audio i then_let λ a.
    if a == 255
    then (get_elem? audio (i + 1) then_let λ b. some (b / 16 == 15 && b / 2 % 4 == 0))
    else some false

-- The frame length in the header at `i`, 13 bits of three bytes
unfoldable pub frame_length : Text → ℕ → Option ℕ
frame_length audio i = get_elem? audio (i + 3) then_let λ d. get_elem? audio (i + 4) then_let λ e.
    get_elem? audio (i + 5) then_let λ f. some (d % 4 * 2048 + e * 8 + f / 32)

-- The inner loop: the frames of the chain at `pos`, and their bytes.
unfoldable pub chain : ℕ → Text → ℕ → ℕ → ℕ → Option (ℕ × ℕ)
chain zero audio pos frames bytes = none
chain (suc fuel) audio pos frames bytes = elim (leb (pos + 7) (length audio)) [
  | false ↦ some (frames, bytes)
  | true ↦ is_sync audio pos then_let λ sync. elim sync [
    | false ↦ some (frames, bytes)
    | true ↦ frame_length audio pos then_let λ l. elim (ltb l 7 || ltb (length audio) (pos + l)) [
      | true ↦ some (frames, bytes)
      | false ↦ chain fuel audio (pos + l) (suc frames) (bytes + l)
    ]
  ]
]

pub record AdtsTrack : Type 0 where
  pub frames : ℕ
  pub bytes : ℕ
  pub rate : ℕ
  pub channels : ℕ

abbrev pub no_track : AdtsTrack
no_track = record { frames = 0; bytes = 0; rate = 0; channels = 0 }

-- What a candidate at `i` yields: nothing, or the track to return.
unfoldable pub candidate : Text → ℕ → Option (Option AdtsTrack)
unfolding chain is_sync frame_length
candidate audio i = is_sync audio i then_let λ sync. elim sync [
  | false ↦ some none
  | true ↦ get_elem? audio (i + 2) then_let λ c. frame_length audio i then_let λ l.
      elim (ltb l 7 || (ltb (length audio) (i + l) || leb 13 (c / 4 % 16))) [
        | true ↦ some none
        | false ↦ get_elem? audio (i + 3) then_let λ d.
            chain (suc (length audio)) audio i 0 0 then_let λ fb. elim (ltb (fb.0) 3) [
              | true ↦ some none
              | false ↦ get_elem? adts_sample_rates (c / 4 % 16) then_let λ rate. some (
                  some (record {
                    frames = fb.0;
                    bytes = fb.1;
                    rate = rate;
                    channels = c % 2 * 4 + d / 64;
                  }))
            ]
      ]
]

unfoldable pub walk_from : ℕ → Text → ℕ → Option AdtsTrack
unfolding candidate
walk_from zero audio i = none
walk_from (suc fuel) audio i = elim (ltb (i + 7) (length audio)) [
  | false ↦ some no_track
  | true ↦ candidate audio i then_let λ found. elim found [
    | some track ↦ some track
    | none ↦ walk_from fuel audio (suc i)
  ]
]

unfoldable pub walk_adts : Text → Option AdtsTrack
unfolding walk_from
walk_adts audio = walk_from (suc (length audio)) audio 0

-- The start of an audio packet: its byte 8.
unfoldable pub audio_header : Text → Option ℕ
audio_header (b0 ∷ b1 ∷ b2 ∷ b3 ∷ b4 ∷ b5 ∷ b6 ∷ b7 ∷ b8 ∷ rest) =
    if b0 == 0 && (b1 == 0 && (b2 == 1 && b3 == 192)) then some b8 else none
audio_header _ = none

abbrev continued : ℕ → Text → ℕ → ℕ × Text
continued pid payload audio_pid = if pid == audio_pid then (audio_pid, payload) else (audio_pid, [])

-- A packet's payload: the audio stream's identifier from now on, and the bytes to append.
unfoldable pub demux_payload : ℕ → Bool → Text → ℕ → ℕ × Text
demux_payload pid false payload audio_pid = continued pid payload audio_pid
demux_payload pid true payload audio_pid = elim (audio_header payload) [
  | none ↦ continued pid payload audio_pid
  | some h ↦ if ltb (length payload) (9 + h) then (pid, []) else (pid, drop (9 + h) payload)
]

-- A packet by its header's bytes: the payload begins behind the adaptation field, if it has one.
unfoldable pub demux_fields : ℕ → ℕ → ℕ → ℕ → Text → ℕ → ℕ × Text
demux_fields b1 b2 b3 b4 packet audio_pid =
    let pid = b1 % 32 * 256 + b2 in
    let afc = b3 / 16 % 4 in
    let p = if leb 2 afc then 4 + (1 + b4) else 4 in
    if afc % 2 == 0 || leb 188 p
    then (audio_pid, [])
    else demux_payload pid (b1 / 64 % 2 == 1) (drop p packet) audio_pid

-- One transport packet: the audio stream's identifier from now on, and the bytes to append.
unfoldable pub demux_packet : Text → ℕ → Option (ℕ × Text)
demux_packet packet audio_pid = get_elem? packet 0 then_let λ sync. elim (sync == 71) [
  | false ↦ some (audio_pid, [])
  | true ↦ get_elem? packet 1 then_let λ b1. get_elem? packet 2 then_let λ b2.
      get_elem? packet 3 then_let λ b3.
      get_elem? packet 4 then_let λ b4. some (demux_fields b1 b2 b3 b4 packet audio_pid)
]

-- The loop over whole packets
unfoldable pub demux : ℕ → Text → ℕ → Option Text
demux zero buf audio_pid = none
demux (suc fuel) buf audio_pid = elim (leb 188 (length buf)) [
  | false ↦ some []
  | true ↦ demux_packet (take 188 buf) audio_pid then_let λ r.
      demux fuel (drop 188 buf) (r.0) then_let λ rest. some (r.1 ++ rest)
]

unfoldable pub demux_audio_pes : Text → Option Text
demux_audio_pes buf = demux (suc (length buf)) buf 65535
