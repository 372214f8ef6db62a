-- ===== src/Subtitles.antt =====
-- The conversion of SRT to WebVTT: internal/subtitles/vtt.go. Texts are bytes; letters and white space
-- are the ASCII ones. The floating-point seconds, with `strconv.ParseFloat`, are the parameter `Float`.
pub mod Cues
mod Examples
use goflix.Base.{
  List, [], ◌∷◌, ◌++◌, ℕ, zero, suc, Bool, true, false, not, ◌||◌, ◌&&◌, Option, none, some, Text,
  codes, text_eq, text_key, ◌==◌, leb, ltb, length, keep, any, map, if◌then◌else◌,
}
use goflix.Base.Map.{Map, lookup, insert}
use goflix.Base.Strings.{
  is_space, trim_left, trim_right, trim_space, cut_prefix, has_prefix, contains, split, join,
  to_lower, cut_text,
}

-- `float64`: its comparisons, sums and products, and `ParseFloat`. No law is assumed.
pub record Float : Type 1 where
  pub F : Type 0
  pub parse_float : Text → Option F
  pub of_nat : ℕ → F
  pub add : F → F → F
  pub mul : F → F → F
  pub lt : F → F → Bool
  pub le : F → F → Bool

abbrev commas_to_dots : Text → Text
commas_to_dots s = map (λ c. if c == b',' then b'.' else c) s

-- `strings.Fields`: the parts between white space, the empty ones left out.
unfoldable pub split_space : Text → List Text
split_space [] = [] ∷ []
split_space (c ∷ s) = elim (split_space s) [
  | [] ↦ [] ∷ []
  | part ∷ rest ↦ if is_space c then [] ∷ part ∷ rest else (c ∷ part) ∷ rest
]

abbrev is_filled : Text → Bool
is_filled s = not (text_eq s [])

unfoldable pub fields : Text → List Text
fields s = keep is_filled (split_space s)

-- `strings.Split(s, "\n\n")`
unfoldable pub split_blank : Text → List Text
split_blank [] = [] ∷ []
split_blank (c ∷ []) = (c ∷ []) ∷ []
split_blank (c ∷ d ∷ s) = elim (c == 10 && d == 10) [
  | true ↦ [] ∷ split_blank s
  | false ↦ elim (split_blank (d ∷ s)) [ [] ↦ [] ∷ [] | part ∷ rest ↦ (c ∷ part) ∷ rest ]
]

-- `strings.ReplaceAll(s, "\r\n", "\n")`
unfoldable pub drop_cr : Text → Text
drop_cr [] = []
drop_cr (c ∷ []) = c ∷ []
drop_cr (c ∷ d ∷ s) = elim (c == 13 && d == 10) [
  | true ↦ 10 ∷ drop_cr s
  | false ↦ c ∷ drop_cr (d ∷ s)
]

abbrev bom : Text
bom = 239 ∷ 187 ∷ 191 ∷ []

abbrev trim_prefix : Text → Text → Text
trim_prefix p s = elim (cut_prefix p s) [ none ↦ s | some rest ↦ rest ]

-- The normal form of the input; the two prefixes are the same three bytes.
unfoldable pub normalize_input : Text → Text
normalize_input srt =
    trim_space
      (map (λ c. if c == 13 then 10 else c) (drop_cr (trim_prefix bom (trim_prefix bom srt))))

-- `strings.TrimRight(l, " \t")`
unfoldable pub trim_tail : Text → Text
trim_tail [] = []
trim_tail (c ∷ s) = elim (trim_tail s) [
  | [] ↦ if c == 32 || c == 9 then [] else c ∷ []
  | x ∷ r ↦ c ∷ x ∷ r
]

unfoldable pub normalize_cue_text : List Text → Text
normalize_cue_text lines = to_lower (join (codes " ") (fields (join (codes " ") lines)))

-- The first line with an arrow, and the lines behind it.
unfoldable pub find_timing : List Text → Option (Text × List Text)
find_timing [] = none
find_timing (line ∷ lines) =
    if contains (codes "-->") line then some (line, lines) else find_timing lines

abbrev is_blank : Text → Bool
is_blank l = text_eq (trim_space l) []

unfoldable pub text_lines : List Text → List Text
text_lines lines = map trim_tail (keep (λ l. not (is_blank l)) lines)

module _ (fl : Float) where
  unfoldable pub parse_clock : List Text → Option (fl.F)
  parse_clock (mins ∷ secs ∷ []) = elim (fl.parse_float mins) [
    | none ↦ none
    | some m ↦ elim (fl.parse_float secs) [
      | none ↦ none
      | some s ↦
          some (fl.add (fl.add (fl.mul (fl.of_nat 0) (fl.of_nat 3600)) (fl.mul m (fl.of_nat 60))) s)
    ]
  ]
  parse_clock (hours ∷ mins ∷ secs ∷ []) = elim (fl.parse_float hours) [
    | none ↦ none
    | some h ↦ elim (fl.parse_float mins) [
      | none ↦ none
      | some m ↦ elim (fl.parse_float secs) [
        | none ↦ none
        | some s ↦ some (fl.add (fl.add (fl.mul h (fl.of_nat 3600)) (fl.mul m (fl.of_nat 60))) s)
      ]
    ]
  ]
  parse_clock _ = none

  unfoldable pub parse_cue_timestamp : Text → Option (fl.F)
  parse_cue_timestamp raw =
      let s = trim_space raw in
      if text_eq s [] then none else parse_clock (split b':' (commas_to_dots s))

  -- A cue that is written: its times, its line of times, and its text.
  pub record Cue : Type 0 where
    pub start : fl.F
    pub end : fl.F
    pub timing : Text
    pub lines : List Text

  -- What a block of the input is.
  pub data Block : Type 0 where
    dropped : Block
    passed : Text → Block
    timed : Cue → Block

  unfoldable pub timing_line : Text → List Text → Text
  timing_line before [] = []
  timing_line before (end ∷ rest) =
      let line = trim_space before ++ (codes " --> " ++ end) in
      commas_to_dots
        (if leb (length rest) 0 then line else line ++ (codes " " ++ join (codes " ") rest))

  unfoldable pub read_cue : Text → List Text → List Text → Block
  read_cue before [] lines = dropped
  read_cue before (end ∷ rest) lines = elim (parse_cue_timestamp before) [
    | none ↦ dropped
    | some start ↦ elim (parse_cue_timestamp end) [
      | none ↦ dropped
      | some stop ↦
          if fl.le stop start || leb (length (text_lines lines)) 0
          then dropped
          else timed (record {
            start = start;
            end = stop;
            timing = timing_line before (end ∷ rest);
            lines = text_lines lines;
          })
    ]
  ]

  unfoldable pub read_block : Bool → Text → Block
  read_block is_vtt raw =
      let block = trim_space raw in
      if text_eq block [] then dropped else elim (find_timing (split 10 block)) [
        | none ↦ if is_vtt && not (has_prefix (codes "WEBVTT") block) then passed block else dropped
        | some (line, rest) ↦ elim (cut_text (codes "-->") line) [
          | none ↦ dropped
          | some (before, after) ↦ read_cue before (fields after) rest
        ]
      ]

  -- The conversion as it goes on: the blocks that are written, in order, and `keptByText`.
  pub record Conversion : Type 0 where
    pub written : List Block
    pub kept_by_text : Map Text (List Cue)

  unfoldable pub kept_under : Text → Map Text (List Cue) → List Cue
  kept_under key m = elim (lookup key m) [ none ↦ [] | some ks ↦ ks ]

  -- `start < k.end && k.start < end`
  abbrev pub overlaps : Cue → Cue → Bool
  overlaps c k = fl.lt c.start k.end && fl.lt k.start c.end

  unfoldable pub is_duplicate : Cue → List Cue → Bool
  is_duplicate c [] = false
  is_duplicate c (k ∷ ks) = if overlaps c k then true else is_duplicate c ks

  unfoldable pub write_cue : Cue → Conversion → Conversion
  write_cue c v =
      let key = normalize_cue_text c.lines in
      let ks = kept_under key v.kept_by_text in
      if is_duplicate c ks then v else record {
        written = v.written ++ timed c ∷ [];
        kept_by_text = insert key (ks ++ c ∷ []) v.kept_by_text;
      }

  unfoldable pub write_block : Block → Conversion → Conversion
  write_block dropped v = v
  write_block (passed block) v = record v { written = v.written ++ passed block ∷ [] }
  write_block (timed c) v = write_cue c v

  -- The loop over the blocks
  unfoldable pub convert : Bool → List Text → Conversion → Conversion
  convert is_vtt [] v = v
  convert is_vtt (raw ∷ rest) v = convert is_vtt rest (write_block (read_block is_vtt raw) v)

  unfoldable pub write_lines : List Text → Text
  write_lines [] = []
  write_lines (l ∷ ls) = l ++ (10 ∷ write_lines ls)

  -- What is written for a block
  unfoldable pub block_text : Block → Text
  block_text dropped = []
  block_text (passed block) = block ++ codes "\n\n"
  block_text (timed c) = c.timing ++ (10 ∷ (write_lines c.lines ++ codes "\n"))

  unfoldable pub blocks_text : List Block → Text
  blocks_text [] = []
  blocks_text (b ∷ bs) = block_text b ++ blocks_text bs

  unfoldable pub conversion_of : Text → Conversion
  conversion_of srt =
      let s = normalize_input srt in
      convert (has_prefix (codes "WEBVTT") s) (split_blank s)
        (record { written = []; kept_by_text = [] })

  unfoldable pub srt_to_web_vtt : Text → Text
  srt_to_web_vtt srt = codes "WEBVTT\n\n" ++ blocks_text (conversion_of srt).written
