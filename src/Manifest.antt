-- ===== src/Manifest.antt =====
-- HLS playlists: `forceHighestQuality` of internal/mediaresolver/manifest.go, `highestVariantSize` of
-- streams.go and `lastPlaylistLine` of cache.go. A playlist is its bytes; its lines are what
-- `strings.Split` makes of it at the line feeds.
pub mod Numbers
pub mod Lines
pub mod Choice
pub mod Passes
pub mod Forced
pub mod Inject
pub mod Rewrite
mod Examples
use goflix.Base.{
  List, [], ◌∷◌, ◌++◌, ℕ, zero, suc, Bool, true, false, ◌&&◌, ◌||◌, Option, none, some, Text, codes,
  text_eq, ◌==◌, length, if◌then◌else◌,
}
use goflix.Base.Int.{ℤ, pos, negsuc, ltb_ℤ}
use goflix.Base.Strings.{trim_space, contains, cut_prefix, has_prefix, split, join}
use goflix.Manifest.Numbers.{to_upper, bandwidth_of, resolution_of, wrap_product, eq_ℤ}

abbrev pub stream_inf : Text
stream_inf = codes "#EXT-X-STREAM-INF"

unfoldable pub is_variant : Text → Bool
is_variant line = has_prefix stream_inf (trim_space line)

-- A line that the search for a URI passes over
unfoldable pub is_passed : Text → Bool
is_passed line = let t = trim_space line in text_eq t [] || has_prefix (codes "#") t

-- `for j := i + 1; …`: the URI line behind a tag and the lines behind that.
unfoldable pub next_uri : List Text → Option (Text × List Text)
next_uri [] = none
next_uri (line ∷ rest) = if is_passed line then next_uri rest else some (line, rest)

abbrev either : List Text → Text → Bool
either [] s = false
either (tag ∷ tags) s = contains tag s || either tags s

-- The size of a variant by the names of its tier; 0 by 0 when it has none.
unfoldable pub tier_size : Text → ℕ × ℕ
tier_size s =
    if either (codes "4K" ∷ codes "2160" ∷ codes "UHD" ∷ []) s
    then (3840, 2160)
    else if either (codes "1440" ∷ codes "2K" ∷ codes "QHD" ∷ []) s
    then (2560, 1440)
    else if either (codes "1080" ∷ codes "FHD" ∷ []) s
    then (1920, 1080)
    else if either (codes "720" ∷ codes "HD" ∷ []) s
    then (1280, 720)
    else (0, 0)

abbrev area : ℕ × ℕ → ℤ
area (w, h) = wrap_product w h

abbrev stated_size : Option (ℕ × ℕ) → ℕ × ℕ
stated_size none = (0, 0)
stated_size (some size) = size

unfoldable pub pixels_of : Text → Text → ℤ
pixels_of tag uri =
    let pixels = area (stated_size (resolution_of tag)) in
    if eq_ℤ pixels (pos 0) then area (tier_size (to_upper (tag ++ (codes " " ++ uri)))) else pixels

-- The best variant so far: `maxBandwidth`, `maxPixels` and `bestVariantLines`.
pub record Best : Type 0 where
  pub max_bandwidth : ℤ
  pub max_pixels : ℤ
  pub variant_lines : Option (Text × Text)

abbrev pub no_best : Best
no_best = record { max_bandwidth = negsuc 0; max_pixels = negsuc 0; variant_lines = none }

unfoldable pub better : ℤ → ℤ → Best → Bool
better pixels bw best =
    ltb_ℤ best.max_pixels pixels || (eq_ℤ pixels best.max_pixels && ltb_ℤ best.max_bandwidth bw)

unfoldable pub consider : Text → Text → Best → Best
consider tag uri best =
    let bw = pos (bandwidth_of tag) in
    let pixels = pixels_of tag uri in
    if better pixels bw best
    then record { max_bandwidth = bw; max_pixels = pixels; variant_lines = some (tag, uri) }
    else best

-- Pass 1 over the lines; as many rounds as there are lines are enough.
unfoldable pub pick : ℕ → List Text → Best → Best
pick zero lines best = best
pick (suc fuel) [] best = best
pick (suc fuel) (line ∷ lines) best = elim (is_variant line) [
  | false ↦ pick fuel lines best
  | true ↦ elim (next_uri lines) [
    | none ↦ pick fuel lines best
    | some (uri, rest) ↦ pick fuel rest (consider (trim_space line) uri best)
  ]
]

-- Pass 2: every line but the variants' tags and the lines up to their URIs.
unfoldable pub strip : ℕ → List Text → List Text
strip zero lines = []
strip (suc fuel) [] = []
strip (suc fuel) (line ∷ lines) = elim (is_variant line) [
  | false ↦ line ∷ strip fuel lines
  | true ↦ elim (next_uri lines) [ none ↦ strip fuel lines | some (uri, rest) ↦ strip fuel rest ]
]

abbrev pub best_lines : Option (Text × Text) → List Text
best_lines none = []
best_lines (some (tag, uri)) = tag ∷ uri ∷ []

unfoldable pub forced_lines : List Text → List Text
forced_lines lines =
    strip (length lines) lines ++ best_lines ((pick (length lines) lines no_best).variant_lines)

unfoldable pub force_highest_quality : Text → Text
force_highest_quality manifest =
    if contains stream_inf manifest
    then join (codes "\n") (forced_lines (split 10 manifest))
    else manifest

unfoldable pub last_line : List Text → Text → Text
last_line [] last = last
last_line (line ∷ lines) last = last_line lines (if is_passed line then last else trim_space line)

unfoldable pub last_playlist_line : Text → Text
last_playlist_line text = last_line (split 10 text) []

-- `highestVariantSize`: width and height, the largest area and its bandwidth.
pub record Largest : Type 0 where
  pub largest_pixels : ℤ
  pub largest_bandwidth : ℤ
  pub width : ℕ
  pub height : ℕ

unfoldable pub size_of : Text → ℕ × ℕ
size_of line = elim (resolution_of line) [ some size ↦ size | none ↦ tier_size line ]

unfoldable pub larger : Text → Largest → Largest
larger line l =
    let bw = pos (bandwidth_of line) in
    let pixels = area (size_of line) in
    if ltb_ℤ l.largest_pixels pixels
      || (eq_ℤ pixels l.largest_pixels && ltb_ℤ l.largest_bandwidth bw)
    then record {
      largest_pixels = pixels;
      largest_bandwidth = bw;
      width = (size_of line).0;
      height = (size_of line).1;
    }
    else l

unfoldable pub largest_of : List Text → Largest → Largest
largest_of [] l = l
largest_of (line ∷ lines) l =
    largest_of lines (if is_variant line then larger (trim_space line) l else l)

unfoldable pub highest_variant_size : Text → ℕ × ℕ
highest_variant_size master =
    let l =
      largest_of (split 10 master) (record {
        largest_pixels = negsuc 0;
        largest_bandwidth = negsuc 0;
        width = 0;
        height = 0;
      }) in
    (l.width, l.height)
