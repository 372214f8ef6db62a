-- ===== src/Manifest/Rewrite.antt =====
-- The rewriting of a playlist's URIs into proxied ones: `rewriteManifest`, up to the renditions, and
-- `resolveMediaURL` of internal/mediaresolver/manifest.go. The package net/url is the parameter `UrlLib`.
pub mod Proxied
use goflix.Base.{
  List, [], ◌∷◌, ◌++◌, ℕ, zero, suc, Bool, true, false, not, ◌||◌, ◌&&◌, Option, none, some, Text,
  codes, text_eq, ◌==◌, length, if◌then◌else◌,
}
use goflix.Base.Strings.{trim_space, contains, cut_prefix, has_prefix, split, join, cut, to_lower}

pub record UrlLib : Type 1 where
  pub Url : Type 0
  pub parse : Text → Option Url
  pub is_abs : Url → Bool
  pub resolve_reference : Url → Url → Url
  pub host : Url → Text
  pub scheme : Url → Text
  pub string : Url → Text
  pub query_escape : Text → Text

-- `URI="([^"]+)"` at the front: the value and the rest.
unfoldable pub uri_at : Text → Option (Text × Text)
uri_at s = elim (cut_prefix (codes "URI=\"") s) [
  | none ↦ none
  | some behind ↦ elim (cut b'"' behind) [
    | none ↦ none
    | some (value, rest) ↦ if text_eq value [] then none else some (value, rest)
  ]
]

abbrev pub proxy_path : Text
proxy_path = codes "/api/media/proxy/"

module _ (lib : UrlLib) (base : lib.Url) where
  -- "" when the URL cannot be fetched
  unfoldable pub resolve_media_url : Text → Text
  resolve_media_url raw0 =
      let raw = trim_space raw0 in
      if text_eq raw [] then [] else elim (lib.parse raw) [
        | none ↦ []
        | some u0 ↦
            let u = if lib.is_abs u0 then u0 else lib.resolve_reference base u0 in
            if text_eq (lib.host u) []
            then []
            else if not (text_eq (lib.scheme u) (codes "https"))
                && not (text_eq (lib.scheme u) (codes "http"))
            then []
            else lib.string u
      ]

  -- The hosts that a proxied URL adds to `discovered`
  unfoldable pub discovered_host : Text → List Text
  discovered_host u = elim (lib.parse u) [
    | none ↦ []
    | some pu ↦ if text_eq (lib.host pu) [] then [] else to_lower (lib.host pu) ∷ []
  ]

  module _ (token : Text) where
    abbrev pub proxy_prefix : Text
    proxy_prefix = proxy_path ++ (token ++ codes ".m3u8?url=")

    -- `proxyURL`: the URI that is written, and the hosts it discovers.
    unfoldable pub proxy_url : Text → Text × List Text
    proxy_url raw0 =
        let raw = trim_space raw0 in
        if text_eq raw [] || has_prefix proxy_path raw
        then (raw, [])
        else let u = resolve_media_url raw in
          if text_eq u []
          then (raw, [])
          else (proxy_prefix ++ lib.query_escape u, discovered_host u)

    -- `uriAttrRE.ReplaceAllStringFunc`
    unfoldable pub replace_uris : ℕ → Text → Text × List Text
    replace_uris zero s = (s, [])
    replace_uris (suc fuel) [] = ([], [])
    replace_uris (suc fuel) (c ∷ s) = elim (uri_at (c ∷ s)) [
      | none ↦ let (out, hosts) = replace_uris fuel s in (c ∷ out, hosts)
      | some (value, rest) ↦
          let (uri, hosts) = proxy_url value in
          let (out, more) = replace_uris fuel rest in
          (codes "URI=\"" ++ (uri ++ (b'"' ∷ out)), hosts ++ more)
    ]

    -- A bare line: its new form and the hosts it discovers.
    unfoldable pub rewrite_line : Text → Text × List Text
    rewrite_line line =
        let trimmed = trim_space line in
        if text_eq trimmed [] || (has_prefix (codes "#") trimmed || has_prefix proxy_path trimmed)
        then (line, [])
        else if contains (codes " ") trimmed || text_eq (resolve_media_url trimmed) []
        then (line, [])
        else proxy_url trimmed

    unfoldable pub rewrite_lines : List Text → List Text × List Text
    rewrite_lines [] = ([], [])
    rewrite_lines (line ∷ lines) =
        let (out, hosts) = rewrite_line line in
        let (outs, more) = rewrite_lines lines in (out ∷ outs, hosts ++ more)

    unfoldable pub rewrite_uris : Text → Text × List Text
    rewrite_uris text =
        let (replaced, hosts) = replace_uris (length text) text in
        let (lines, more) = rewrite_lines (split 10 replaced) in
        (join (codes "\n") lines, hosts ++ more)
