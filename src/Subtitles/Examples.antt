-- ===== src/Subtitles/Examples.antt =====
-- Two cues with one line of text, the second inside the first.
use goflix.Base.{
  ℕ, ◌+◌, ◌*◌, Option, none, some, Text, codes, text_eq, nat_eq, text_key, ltb, leb, ◌≡◌, refl, All,
}
use goflix.Base.Map.{lookup, insert}
use goflix.Base.Strings.{cut_text, trim_space, cut, cut_prefix, contains, split, join, to_lower}
use goflix.Base.Decimal.{scan}
use goflix.Subtitles.{
  Float, srt_to_web_vtt, blocks_text, block_text, conversion_of, convert, normalize_input, drop_cr,
  split_blank, read_block, read_cue, parse_cue_timestamp, parse_clock, timing_line, fields,
  split_space, text_lines, trim_tail, normalize_cue_text, find_timing, kept_under, is_duplicate,
  write_cue, write_block, write_lines,
}
use goflix.Subtitles.Cues.{AllApart, IsShown, conversion_of-AllApart}

-- Whole seconds; what stands behind a point is left out.
abbrev whole : Text → Option ℕ
whole s = elim (cut b'.' s) [ none ↦ scan 0 s | some (before, after) ↦ scan 0 before ]

abbrev whole_seconds : Float
whole_seconds = record {
  F = ℕ;
  parse_float = whole;
  of_nat = λ n. n;
  add = λ a b. a + b;
  mul = λ a b. a * b;
  lt = λ a b. ltb a b;
  le = λ a b. leb a b;
}

abbrev doubled : Text
doubled = codes "1\n00:00:01,000 --> 00:00:05,000\nHi\n\n2\n00:00:02,000 --> 00:00:04,000\nhi\n"

second_dropped :
    srt_to_web_vtt whole_seconds doubled ≡ codes "WEBVTT\n\n00:00:01.000 --> 00:00:05.000\nHi\n\n"
unfolding srt_to_web_vtt blocks_text block_text conversion_of convert normalize_input drop_cr
    split_blank read_block read_cue parse_cue_timestamp parse_clock timing_line fields split_space
    text_lines trim_tail normalize_cue_text find_timing cut_text kept_under is_duplicate write_cue
    write_block write_lines lookup insert trim_space cut contains cut_prefix split join to_lower
    scan text_eq
second_dropped = refl

conversion_of-AllApart_example :
    AllApart whole_seconds (conversion_of whole_seconds doubled).written
    × All (IsShown whole_seconds) (conversion_of whole_seconds doubled).written
conversion_of-AllApart_example = conversion_of-AllApart whole_seconds doubled
