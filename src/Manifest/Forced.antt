-- ===== src/Manifest/Forced.antt =====
-- What `forceHighestQuality` leaves of a playlist.
use goflix.Base.{
  append_nil, All-append, List, [], ◌∷◌, ◌++◌, true, false, Option, none, some, Text, codes, length,
  ◌≡◌, refl, sym, ap, ◌∙◌, inl, inr, ◌⊎◌, All, Bool-cases, Option-cases, List-cases, arith,
}
use goflix.Base.Strings.{
  trim_left, trim_right, trim_space, contains, cut_prefix, Without, split, join,
}
use goflix.Manifest.{
  stream_inf, is_variant, no_best, pick, strip, forced_lines, force_highest_quality, last_line,
  last_playlist_line,
}
use goflix.Manifest.Lines.{split-All, split-join}
use goflix.Manifest.Passes.{
  IsPlain, strip-IsPlain, strip-append, pick-append, variants-append, last_line-append, strip-pair,
  variants-pair, pick-pair, last_line-pair, chosen, chosen-IsPair, chosen_again,
}
use goflix.Manifest.Choice.{variants}

abbrev pub only : Option (Text × Text) → List (Text × Text)
only none = []
only (some v) = v ∷ []

plain-Without : (xs : List Text) → All IsPlain xs → All (Without 10) xs
plain-Without [] h = tt
plain-Without (x ∷ xs) h = ((h.0).0, plain-Without xs (h.1))

module _ (lines : List Text) (h : All (Without 10) lines) where
  abbrev stripped : List Text
  stripped = strip (length lines) lines

  -- Both passes over what they leave
  forced-none : chosen lines ≡ none → forced_lines (stripped ++ []) ≡ stripped ++ []
  unfolding forced_lines strip pick
  forced-none e = rw (pick-append [] stripped no_best (strip-IsPlain (length lines) lines h)) (
      rw (strip-append [] stripped (strip-IsPlain (length lines) lines h))
        (append_nil (stripped ++ [])))

  forced-some :
      (tag uri : Text)
      → chosen lines ≡ some (tag, uri)
      → forced_lines (stripped ++ tag ∷ uri ∷ []) ≡ stripped ++ tag ∷ uri ∷ []
  unfolding forced_lines
  forced-some tag uri e =
      let p = chosen-IsPair lines (tag, uri) e h in
      let plain = strip-IsPlain (length lines) lines h in
      rw (pick-append (tag ∷ uri ∷ []) stripped no_best plain) (
        rw (strip-append (tag ∷ uri ∷ []) stripped plain) (
          rw (strip-pair tag uri p, pick-pair tag uri p no_best, chosen_again lines (tag, uri) e)
            (ap (λ x. x ++ tag ∷ uri ∷ []) (append_nil stripped))))

  forced-forced : forced_lines (forced_lines lines) ≡ forced_lines lines
  unfolding forced_lines
  forced-forced = elim (Option-cases (chosen lines)) [
    | inl e ↦ rw e (forced-none e)
    | inr ((tag, uri), e) ↦ rw e (forced-some tag uri e)
  ]

  forced-variants :
      variants (length (forced_lines lines)) (forced_lines lines) ≡ only (chosen lines)
  unfolding forced_lines
  forced-variants = elim (Option-cases (chosen lines)) [
    | inl e ↦
        rw e (unfold variants in variants-append [] stripped (strip-IsPlain (length lines) lines h))
    | inr ((tag, uri), e) ↦ rw e (
        variants-append (tag ∷ uri ∷ []) stripped (strip-IsPlain (length lines) lines h)
        ∙ variants-pair tag uri (chosen-IsPair lines (tag, uri) e h))
  ]

  forced-Without : All (Without 10) (forced_lines lines)
  unfolding forced_lines
  forced-Without = elim (Option-cases (chosen lines)) [
    | inl e ↦ rw e (All-append (Without 10) stripped [] plain tt)
    | inr ((tag, uri), e) ↦
        let p = chosen-IsPair lines (tag, uri) e h in
        rw e (All-append (Without 10) stripped (tag ∷ uri ∷ []) plain (p.3, (p.4, tt)))
  ]
    where
      plain : All (Without 10) stripped
      plain = plain-Without stripped (strip-IsPlain (length lines) lines h)

-- The lines of the answer are the lines that were left, unless none was.
forced_text :
    (m : Text)
    → contains stream_inf m ≡ true
    → (split 10 (force_highest_quality m) ≡ forced_lines (split 10 m))
      ⊎ ((force_highest_quality m ≡ []) × (forced_lines (split 10 m) ≡ []))
unfolding force_highest_quality
forced_text m c = elim (List-cases (forced_lines (split 10 m))) [
  | inl gone ↦ rw (c, force_highest_quality) (rw gone (unfold join in inr (refl, refl)))
  | inr (line, rest, e) ↦
      let w : All (Without 10) (line ∷ rest) =
        rw e at (forced-Without (split 10 m) (split-All 10 m)) in
      rw (c, force_highest_quality) (rw e (inl (split-join 10 line rest w)))
]

-- The chosen variant is the only one left: in a playlist that names variants, those of the answer
-- are the one that pass 1 chose, and none when it chose none.
pub force_highest_quality-variants :
    (m : Text)
    → contains stream_inf m ≡ true
    → variants (length (split 10 (force_highest_quality m))) (split 10 (force_highest_quality m))
      ≡ only (chosen (split 10 m))
force_highest_quality-variants m c = elim (forced_text m c) [
  | inl e ↦ rw e (forced-variants (split 10 m) (split-All 10 m))
  | inr (e, gone) ↦
      let left : variants (length (forced_lines (split 10 m))) (forced_lines (split 10 m))
          ≡ only (chosen (split 10 m)) =
        forced-variants (split 10 m) (split-All 10 m) in
      rw e (
        unfold variants split is_variant trim_space trim_left trim_right cut_prefix in
        (rw gone at left))
]

unforced : (m : Text) → contains stream_inf m ≡ false → force_highest_quality m ≡ m
unfolding force_highest_quality
unforced m e = rw (e, force_highest_quality) refl

joined :
    (m : Text)
    → contains stream_inf m ≡ true
    → force_highest_quality m ≡ join (codes "\n") (forced_lines (split 10 m))
unfolding force_highest_quality
joined m e = rw (e, force_highest_quality) refl

-- Forcing a playlist twice is forcing it once.
pub force_highest_quality_idem :
    (m : Text) → force_highest_quality (force_highest_quality m) ≡ force_highest_quality m
force_highest_quality_idem m = elim (Bool-cases (contains stream_inf m)) [
  | inr other ↦ ap force_highest_quality (unforced m other)
  | inl master ↦ elim (forced_text m master) [
    | inr (e, gone) ↦ rw e (unfold force_highest_quality contains cut_prefix in refl)
    | inl e ↦ elim (Bool-cases (contains stream_inf (force_highest_quality m))) [
      | inr other ↦ unforced (force_highest_quality m) other
      | inl again ↦
          joined (force_highest_quality m) again
          ∙ (ap (λ ls. join (codes "\n") (forced_lines ls)) e
              ∙ (ap (λ ls. join (codes "\n") ls) (forced-forced (split 10 m) (split-All 10 m))
                  ∙ sym (joined m master)))
    ]
  ]
]

nothing_left :
    (v : Text × Text) (lines : List Text) → lines ≡ [] → variants (length lines) lines ≡ v ∷ [] → ⊥
unfolding variants
nothing_left v lines e left =
    let gone : variants 0 [] ≡ v ∷ [] = rw e at left in ground (arith, gone)

-- The read-ahead follows the chosen variant: the last playlist line of the forced playlist is the URI
-- line of the variant that pass 1 chose, when it chose one.
pub last_playlist_line-force :
    (m tag uri : Text)
    → contains stream_inf m ≡ true
    → chosen (split 10 m) ≡ some (tag, uri)
    → last_playlist_line (force_highest_quality m) ≡ trim_space uri
unfolding last_playlist_line
last_playlist_line-force m tag uri c e =
    let lines = split 10 m in
    let p = chosen-IsPair lines (tag, uri) e (split-All 10 m) in
    let shape : forced_lines lines ≡ strip (length lines) lines ++ tag ∷ uri ∷ [] =
      unfold forced_lines in rw e refl in
    elim (forced_text m c) [
      | inr (nothing, gone) ↦
          let left : variants (length (forced_lines lines)) (forced_lines lines)
              ≡ only (some (tag, uri)) =
            forced-variants lines (split-All 10 m) ∙ ap only e in
          absurd (nothing_left (tag, uri) (forced_lines lines) gone left)
      | inl f ↦
          rw (f, last_playlist_line)
            (rw shape (
              last_line-append (tag ∷ uri ∷ []) (strip (length lines) lines) []
              ∙ last_line-pair tag uri p (last_line (strip (length lines) lines) [])))
    ]
