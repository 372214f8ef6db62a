-- ===== src/Manifest/Rewrite/Proxied.antt =====
-- Every bare line that can be fetched is sent through the proxy, and its host is admitted.
use goflix.Base.{
  List, [], ◌∷◌, ◌++◌, Bool, true, false, ◌||◌, Text, codes, text_eq, text_eq_iff, any, length, ◌≡◌,
  refl, ap, ◌∙◌, ◌⊎◌, inl, inr, All, Bool-cases, arith,
}
use goflix.Base.Strings.{trim_space, contains, has_prefix, split, join}
use goflix.Manifest.Lines.{trim_space_idem}
use goflix.Manifest.Rewrite.{
  UrlLib, proxy_path, resolve_media_url, discovered_host, proxy_prefix, proxy_url, rewrite_line,
  rewrite_lines, replace_uris, rewrite_uris,
}

abbrev pub is_host_of : List Text → Text → Bool
is_host_of hosts h = any (λ k. text_eq k h) hosts

module _ (lib : UrlLib) (base : lib.Url) (token : Text) where
  -- A line that stays as it is: blank, a tag, proxied already, with a space, or without a URL that
  -- can be fetched.
  abbrev pub is_left : Text → Bool
  is_left line =
      (text_eq (trim_space line) []
        || (has_prefix (codes "#") (trim_space line) || has_prefix proxy_path (trim_space line)))
      || (contains (codes " ") (trim_space line)
          || text_eq (resolve_media_url lib base (trim_space line)) [])

  -- What becomes of a line, with `hosts` admitted
  abbrev pub IsRewritten : List Text → Text → Text → Type 0
  IsRewritten hosts line out =
      ((is_left line ≡ true) × (out ≡ line))
      ⊎ ((is_left line ≡ false)
          × (out
              ≡ proxy_prefix lib base token
                ++ lib.query_escape (resolve_media_url lib base (trim_space line)))
          × All (λ h. is_host_of hosts h ≡ true)
              (discovered_host lib base (resolve_media_url lib base (trim_space line))))

  abbrev pub AreRewritten : List Text → List Text → List Text → Type 0
  AreRewritten hosts [] [] = Unit
  AreRewritten hosts (line ∷ lines) (out ∷ outs) =
      IsRewritten hosts line out × AreRewritten hosts lines outs
  AreRewritten hosts [] (out ∷ outs) = ⊥
  AreRewritten hosts (line ∷ lines) [] = ⊥

  All_hosts :
      (hs hosts : List Text)
      → ((h : Text) → is_host_of hs h ≡ true → is_host_of hosts h ≡ true)
      → All (λ h. is_host_of hosts h ≡ true) hs
  All_hosts [] hosts f = tt
  All_hosts (h ∷ hs) hosts f = (
    f h (ground (arith, (text_eq_iff h h).1 refl)),
    All_hosts hs hosts (λ k e. f k (ground (arith, e))),
  )

  proxied_uri :
      (t : Text)
      → trim_space t ≡ t
      → (text_eq t [] || has_prefix proxy_path t) ≡ false
      → text_eq (resolve_media_url lib base t) [] ≡ false
      → proxy_url lib base token t ≡ (
        proxy_prefix lib base token ++ lib.query_escape (resolve_media_url lib base t),
        discovered_host lib base (resolve_media_url lib base t),
      )
  unfolding proxy_url
  proxied_uri t same own found = rw (same, proxy_url) (rw own (rw found refl))

  proxied :
      (line : Text)
      → is_left line ≡ false
      → rewrite_line lib base token line ≡ (
        proxy_prefix lib base token
            ++ lib.query_escape (resolve_media_url lib base (trim_space line)),
        discovered_host lib base (resolve_media_url lib base (trim_space line)),
      )
  unfolding rewrite_line
  proxied line e =
      let t : Text = trim_space line in
      let bare : (text_eq t [] || (has_prefix (codes "#") t || has_prefix proxy_path t)) ≡ false =
        ground (arith, e) in
      let one : (contains (codes " ") t || text_eq (resolve_media_url lib base t) []) ≡ false =
        ground (arith, e) in
      rw (bare, rewrite_line)
        (rw one (proxied_uri t (trim_space_idem line) (ground (arith, bare)) (ground (arith, one))))

  left_alone : (line : Text) → is_left line ≡ true → rewrite_line lib base token line ≡ (line, [])
  unfolding rewrite_line
  left_alone line e =
      let t : Text = trim_space line in
      elim (Bool-cases (text_eq t [] || (has_prefix (codes "#") t || has_prefix proxy_path t))) [
        | inl special ↦ rw (special, rewrite_line) refl
        | inr bare ↦
            let out : (contains (codes " ") t || text_eq (resolve_media_url lib base t) []) ≡ true =
              ground (arith, e, bare) in
            rw (bare, rewrite_line) (rw out refl)
      ]

  rewrite_line-IsRewritten :
      (hosts : List Text) (line : Text)
      → ((h : Text)
          → is_host_of ((rewrite_line lib base token line).1) h ≡ true
          → is_host_of hosts h ≡ true)
      → IsRewritten hosts line ((rewrite_line lib base token line).0)
  rewrite_line-IsRewritten hosts line f = elim (Bool-cases (is_left line)) [
    | inl e ↦ inl (e, ap (λ r. r.0) (left_alone line e))
    | inr e ↦ inr (
      e,
      ap (λ r. r.0) (proxied line e),
      All_hosts (discovered_host lib base (resolve_media_url lib base (trim_space line))) hosts
          (λ h k. f h (ap (λ r. is_host_of (r.1) h) (proxied line e) ∙ k)),
    )
  ]

  is_host_of-append :
      (xs ys : List Text) (h : Text) → is_host_of (xs ++ ys) h ≡ is_host_of xs h || is_host_of ys h
  is_host_of-append [] ys h = refl
  is_host_of-append (x ∷ xs) ys h = ground (arith, is_host_of-append xs ys h)

  rewritten_within :
      (hosts lines : List Text)
      → ((h : Text)
          → is_host_of ((rewrite_lines lib base token lines).1) h ≡ true
          → is_host_of hosts h ≡ true)
      → AreRewritten hosts lines ((rewrite_lines lib base token lines).0)
  unfolding rewrite_lines
  rewritten_within hosts [] f = tt
  rewritten_within hosts (line ∷ lines) f = (
    rewrite_line-IsRewritten hosts line (λ h e. f h (
        ground (
          arith,
          e,
          is_host_of-append ((rewrite_line lib base token line).1)
              ((rewrite_lines lib base token lines).1) h,
        ))),
    rewritten_within hosts lines (λ h e. f h (
        ground (
          arith,
          e,
          is_host_of-append ((rewrite_line lib base token line).1)
              ((rewrite_lines lib base token lines).1) h,
        ))),
  )

-- `rewriteManifest`, up to the renditions, is two passes. What the second makes of the lines of the
-- text whose `URI="..."` attributes the first has replaced, line by line: a blank line, a tag, a line
-- that is proxied already, one with a space, and one whose URL cannot be fetched stay as they are;
-- every other line becomes the session's proxy path with the escaped URL, whose host is among those
-- that the whole rewriting discovers. The result is these lines, joined.
pub rewrite_uris-AreRewritten :
    (lib : UrlLib) (base : lib.Url) (token : Text) (text : Text)
    → (outs : List Text) × ((rewrite_uris lib base token text).0 ≡ join (codes "\n") outs)
      × AreRewritten lib base token
          ((rewrite_uris lib base token text).1)
          (split 10 ((replace_uris lib base token (length text) text).0))
          outs
unfolding rewrite_uris
rewrite_uris-AreRewritten lib base token text =
    let first = replace_uris lib base token (length text) text in
    let lines = split 10 (first.0) in
    (
      (rewrite_lines lib base token lines).0,
      refl,
      rewritten_within lib base token (first.1 ++ (rewrite_lines lib base token lines).1) lines
          (λ h e. ground (
            arith,
            e,
            is_host_of-append lib base token (first.1) ((rewrite_lines lib base token lines).1) h,
          )),
    )
