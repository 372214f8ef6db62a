-- ===== src/Manifest/Examples.antt =====
-- A master playlist of two variants.
use goflix.Base.{
  List, some, [], ◌∷◌, ◌++◌, ◌≤◌, ◌≢◌, Text, text_ne, codes, text_eq, length, ◌≡◌, ◌⊎◌, refl, All,
}
use goflix.Base.Strings.{trim_space, contains, cut_prefix, has_prefix, split, join}
use goflix.Manifest.{is_variant, no_best, pick, force_highest_quality}
use goflix.Session.{SubRendition}
use goflix.Manifest.Inject.{
  sanitize_manifest_attr, sub_rendition_line, link_line, splice, inject_sub_renditions,
}
use goflix.Manifest.Inject.Injected.{
  IsPlainByte, sanitize_manifest_attr_lem, inject_sub_renditions_once,
}
use goflix.Manifest.Rewrite.{
  UrlLib, proxy_url, resolve_media_url, discovered_host, rewrite_line, rewrite_lines, rewrite_uris,
  replace_uris,
}
use goflix.Manifest.Rewrite.Proxied.{AreRewritten, rewrite_uris-AreRewritten}
use goflix.Manifest.Choice.{variants, IsUnbeaten, IsChosen, pick_best}
use goflix.Manifest.Passes.{chosen}
use goflix.Manifest.Forced.{only, force_highest_quality-variants}

abbrev low_tag : Text
low_tag = codes "#EXT-X-STREAM-INF:BANDWIDTH=9,RESOLUTION=1280x720"

abbrev high_tag : Text
high_tag = codes "#EXT-X-STREAM-INF:BANDWIDTH=5,RESOLUTION=1920x1080"

abbrev two : Text
two = low_tag ++ (codes "\nlow\n" ++ (high_tag ++ codes "\nhigh\n"))

pick_best_example :
    All (IsUnbeaten (pick 5 (split 10 two) no_best)) (variants 5 (split 10 two))
    × ((pick 5 (split 10 two) no_best ≡ no_best)
        ⊎ IsChosen (variants 5 (split 10 two)) (pick 5 (split 10 two) no_best))
unfolding split
pick_best_example = pick_best (split 10 two)

force_highest_quality-variants_example :
    variants (length (split 10 (force_highest_quality two))) (split 10 (force_highest_quality two))
    ≡ only (chosen (split 10 two))
unfolding contains cut_prefix
force_highest_quality-variants_example = force_highest_quality-variants two refl

sanitize_manifest_attr_lem_example :
    All IsPlainByte (sanitize_manifest_attr (codes " English, \"CC\" "))
    × (length (sanitize_manifest_attr (codes " English, \"CC\" ")) ≤ 96)
sanitize_manifest_attr_lem_example = sanitize_manifest_attr_lem (codes " English, \"CC\" ")

abbrev english : SubRendition
english = record { label = codes "English"; language = codes "en"; uri = codes "/en.m3u8" }

abbrev master : Text
master = codes "#EXTM3U\n" ++ two

master_changes : inject_sub_renditions master (english ∷ []) ≢ master
unfolding text_eq inject_sub_renditions contains split trim_space join splice link_line is_variant
    sub_rendition_line
master_changes = text_ne (inject_sub_renditions master (english ∷ [])) master refl

inject_sub_renditions_once_example :
    inject_sub_renditions (inject_sub_renditions master (english ∷ [])) []
    ≡ inject_sub_renditions master (english ∷ [])
inject_sub_renditions_once_example =
    inject_sub_renditions_once master (english ∷ []) [] master_changes

-- URLs that are their own texts, absolute when they begin with "h", of the host "c".
abbrev plain_urls : UrlLib
plain_urls = record {
  Url = Text;
  parse = λ s. some s;
  is_abs = λ u. has_prefix (codes "h") u;
  resolve_reference = λ b u. b ++ u;
  host = λ u. codes "c";
  scheme = λ u. codes "https";
  string = λ u. u;
  query_escape = λ u. u;
}

abbrev media_lines : List Text
media_lines = codes "#EXTINF:4," ∷ codes "1.ts" ∷ codes "https://c/2.ts" ∷ []

abbrev rewritten : List Text × List Text
rewritten = rewrite_lines plain_urls (codes "https://c/") (codes "t") media_lines

abbrev media : Text
media = join (codes "\n") media_lines

rewrite_uris-AreRewritten_example :
    (outs : List Text) × ((rewrite_uris plain_urls (codes "https://c/") (codes "t") media).0
      ≡ join (codes "\n") outs)
    × AreRewritten plain_urls
        (codes "https://c/")
        (codes "t")
        ((rewrite_uris plain_urls (codes "https://c/") (codes "t") media).1)
        (split 10
          ((replace_uris plain_urls (codes "https://c/") (codes "t") (length media) media).0))
        outs
rewrite_uris-AreRewritten_example =
    rewrite_uris-AreRewritten plain_urls (codes "https://c/") (codes "t") media

second_line :
    rewritten.0
    ≡ codes "#EXTINF:4,"
      ∷ codes "/api/media/proxy/t.m3u8?url=https://c/1.ts"
      ∷ codes "/api/media/proxy/t.m3u8?url=https://c/2.ts"
      ∷ []
unfolding rewrite_lines rewrite_line proxy_url resolve_media_url discovered_host trim_space contains
    cut_prefix text_eq
second_line = refl
