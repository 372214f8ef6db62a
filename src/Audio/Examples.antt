-- ===== src/Audio/Examples.antt =====
-- Three frames of seven bytes at 44.1 kHz.
use goflix.Base.{[], ◌∷◌, ◌++◌, some, Text, ◌≡◌, refl}
use goflix.Audio.{walk_adts}

abbrev frame : Text
frame = 255 ∷ 241 ∷ 80 ∷ 128 ∷ 0 ∷ 224 ∷ 0 ∷ []

abbrev three_frames : Text
three_frames = 9 ∷ (frame ++ (frame ++ frame))

finds_three :
    walk_adts three_frames ≡ some (record { frames = 3; bytes = 21; rate = 44100; channels = 2 })
unfolding walk_adts
finds_three = refl
