-- ===== src/Manifest/Inject.antt =====
-- Subtitle renditions in a master playlist: `SanitizeManifestAttr`, `subRenditionLine` and
-- `injectSubRenditions` of internal/mediaresolver/renditions.go.
pub mod Injected
use goflix.Base.{
  List, [], ◌∷◌, ◌++◌, ℕ, Bool, true, false, not, ◌||◌, ◌&&◌, Option, none, some, Text, codes,
  text_eq, ◌==◌, ltb, leb, length, take, keep, any, map, if◌then◌else◌,
}
use goflix.Base.Strings.{trim_space, contains, cut_prefix, has_prefix, split, join, cut, cut_text}
use goflix.Session.{SubRendition}
use goflix.Manifest.{stream_inf, is_variant}

-- A byte that an attribute's value may hold
abbrev pub is_plain : ℕ → Bool
is_plain c = not (ltb c 32 || (c == 127 || (c == b'"' || c == b',')))

unfoldable pub sanitize_manifest_attr : Text → Text
sanitize_manifest_attr s =
    let out = trim_space (keep is_plain s) in if ltb 96 (length out) then take 96 out else out

abbrev pub sub_rendition_group_id : Text
sub_rendition_group_id = codes "goflix-ext"

unfoldable pub sub_rendition_line : SubRendition → Text
sub_rendition_line s =
    let line =
      codes "#EXT-X-MEDIA:TYPE=SUBTITLES,GROUP-ID=\""
      ++ (sub_rendition_group_id
          ++ (codes "\",NAME=\"" ++ (s.label ++ codes "\",DEFAULT=NO,AUTOSELECT=NO,FORCED=NO"))) in
    let with_language =
      if text_eq s.language []
      then line
      else line ++ (codes ",LANGUAGE=\"" ++ (s.language ++ codes "\"")) in
    with_language ++ (codes ",URI=\"" ++ (s.uri ++ codes "\""))

abbrev subtitles_attr : Text
subtitles_attr = codes "SUBTITLES=\""

-- A line as it is written: a variant's tag refers to the group.
unfoldable pub link_line : Text → Text
link_line line =
    if is_variant line
    then elim (cut_text subtitles_attr line) [
      | none ↦ line ++ (codes ",SUBTITLES=\"" ++ (sub_rendition_group_id ++ codes "\""))
      | some (before, after) ↦ elim (cut b'"' after) [
        | none ↦ line
        | some (value, rest) ↦
            before ++ (subtitles_attr ++ (sub_rendition_group_id ++ (b'"' ∷ rest)))
      ]
    ]
    else line

abbrev pub is_header : Text → Bool
is_header line = has_prefix (codes "#EXTM3U") (trim_space line)

-- The loop: `media` goes behind the first header.
unfoldable pub splice : List Text → Bool → List Text → List Text
splice media inserted [] = []
splice media inserted (line ∷ lines) = elim (not inserted && is_header line) [
  | true ↦ link_line line ∷ (media ++ splice media true lines)
  | false ↦ link_line line ∷ splice media inserted lines
]

abbrev pub type_subtitles : Text
type_subtitles = codes "TYPE=SUBTITLES"

unfoldable pub inject_sub_renditions : Text → List SubRendition → Text
inject_sub_renditions text subs =
    if leb (length subs) 0 || (not (contains stream_inf text) || contains type_subtitles text)
    then text
    else if any is_header (split 10 text)
    then join (codes "\n") (splice (map sub_rendition_line subs) false (split 10 text))
    else text
