-- ===== src/Manifest/Passes.antt =====
-- The two passes of `forceHighestQuality`: what they keep of a row of lines.
use goflix.Base.{
  List, [], ◌∷◌, ◌++◌, ℕ, zero, suc, true, false, Option, some, Text, ◌==◌, length, if◌then◌else◌,
  ◌≡◌, refl, ap, ◌∙◌, inl, inr, All, Bool-cases, Option-cases, List-cases, arith,
}
use mathlib.Core.List.{Memᴰ}
use goflix.Base.Strings.{is_space, trim_left, trim_right, trim_space, has_prefix, Without}
use goflix.Manifest.{
  stream_inf, is_variant, is_passed, next_uri, Best, no_best, better, pixels_of, consider, pick,
  strip, last_line,
}
use goflix.Base.Int.{pos}
use goflix.Manifest.Numbers.{bandwidth_of}
use goflix.Manifest.Lines.{trim_space_idem}
use goflix.Manifest.Choice.{variants, IsChosen, pick_best, pick-IsAbove}

trim_left-All : (P : ℕ → Type 0) (s : Text) → All P s → All P (trim_left s)
unfolding trim_left
trim_left-All P [] h = h
trim_left-All P (c ∷ s) h = elim (Bool-cases (is_space c)) [
  | inl space ↦ rw space (trim_left-All P s h.1)
  | inr solid ↦ rw solid h
]

trim_right-All : (P : ℕ → Type 0) (s : Text) → All P s → All P (trim_right s)
unfolding trim_right
trim_right-All P [] h = h
trim_right-All P (c ∷ s) h = elim (List-cases (trim_right s)) [
  | inr (x, r, e) ↦ let tail : All P (x ∷ r) = rw e at (trim_right-All P s h.1) in rw e (h.0, tail)
  | inl blank ↦ elim (Bool-cases (is_space c)) [
    | inl space ↦ rw blank (rw space tt)
    | inr solid ↦ rw blank (rw solid (h.0, tt))
  ]
]

pub trim_space-All : (P : ℕ → Type 0) (s : Text) → All P s → All P (trim_space s)
unfolding trim_space
trim_space-All P s h = trim_right-All P (trim_left s) (trim_left-All P s h)

-- A tag and a URI line as the passes take them.
abbrev pub IsPair : Text × Text → Type 0
IsPair (tag, uri) =
    (trim_space tag ≡ tag)
    × (is_variant tag ≡ true)
    × (is_passed uri ≡ false)
    × Without 10 tag
    × Without 10 uri

next_uri-All :
    (lines : List Text) (uri : Text) (rest : List Text)
    → All (Without 10) lines
    → next_uri lines ≡ some (uri, rest)
    → (is_passed uri ≡ false) × Without 10 uri × All (Without 10) rest
unfolding next_uri
next_uri-All [] uri rest h e = absurd (ground (arith, e))
next_uri-All (line ∷ lines) uri rest h e = elim (Bool-cases (is_passed line)) [
  | inl passed ↦ next_uri-All lines uri rest (h.1) (ground (arith, passed, e))
  | inr it ↦
      let l : line ≡ uri = ground (arith, it, e) in
      let r : lines ≡ rest = ground (arith, it, e) in (rw (← l) it, rw (← l) (h.0), rw (← r) (h.1))
]

trimmed-IsPair :
    (line uri : Text)
    → is_variant line ≡ true
    → Without 10 line
    → is_passed uri ≡ false
    → Without 10 uri
    → IsPair (trim_space line, uri)
unfolding is_variant
trimmed-IsPair line uri v w p u = (
  trim_space_idem line,
  ap (λ t. has_prefix stream_inf t) (trim_space_idem line) ∙ v,
  p,
  trim_space-All (λ c. (c == 10) ≡ false) line w,
  u,
)

variants-IsPair :
    (fuel : ℕ) (lines : List Text) → All (Without 10) lines → All IsPair (variants fuel lines)
unfolding variants
variants-IsPair zero lines h = tt
variants-IsPair (suc fuel) [] h = tt
variants-IsPair (suc fuel) (line ∷ lines) h = elim (Bool-cases (is_variant line)) [
  | inr plain ↦ rw (plain, variants) (variants-IsPair fuel lines h.1)
  | inl tag ↦ elim (Option-cases (next_uri lines)) [
    | inl dangling ↦ rw (tag, variants) (rw dangling (variants-IsPair fuel lines h.1))
    | inr ((uri, rest), e) ↦
        let (it, w, ws) = next_uri-All lines uri rest (h.1) e in
        rw (tag, variants)
          (rw e (trimmed-IsPair line uri tag (h.0) it w, variants-IsPair fuel rest ws))
  ]
]

-- A line that stays: one without a line feed that is no variant's tag.
abbrev pub IsPlain : Text → Type 0
IsPlain line = Without 10 line × (is_variant line ≡ false)

pub strip-IsPlain :
    (fuel : ℕ) (lines : List Text) → All (Without 10) lines → All IsPlain (strip fuel lines)
unfolding strip
strip-IsPlain zero lines h = tt
strip-IsPlain (suc fuel) [] h = tt
strip-IsPlain (suc fuel) (line ∷ lines) h = elim (Bool-cases (is_variant line)) [
  | inr plain ↦ rw (plain, strip) ((h.0, plain), strip-IsPlain fuel lines h.1)
  | inl tag ↦ elim (Option-cases (next_uri lines)) [
    | inl dangling ↦ rw (tag, strip) (rw dangling (strip-IsPlain fuel lines h.1))
    | inr ((uri, rest), e) ↦
        let (it, w, ws) = next_uri-All lines uri rest (h.1) e in
        rw (tag, strip) (rw e (strip-IsPlain fuel rest ws))
  ]
]

module _ (ys : List Text) where
  pub strip-append :
      (xs : List Text)
      → All IsPlain xs
      → strip (length (xs ++ ys)) (xs ++ ys) ≡ xs ++ strip (length ys) ys
  unfolding strip
  strip-append [] h = refl
  strip-append (x ∷ xs) h = rw ((h.0).1, strip) (ap (λ r. x ∷ r) (strip-append xs (h.1)))

  pub pick-append :
      (xs : List Text) (best : Best)
      → All IsPlain xs
      → pick (length (xs ++ ys)) (xs ++ ys) best ≡ pick (length ys) ys best
  unfolding pick
  pick-append [] best h = refl
  pick-append (x ∷ xs) best h = rw ((h.0).1, pick) (pick-append xs best (h.1))

  pub variants-append :
      (xs : List Text)
      → All IsPlain xs
      → variants (length (xs ++ ys)) (xs ++ ys) ≡ variants (length ys) ys
  unfolding variants
  variants-append [] h = refl
  variants-append (x ∷ xs) h = rw ((h.0).1, variants) (variants-append xs (h.1))

  pub last_line-append :
      (xs : List Text) (last : Text) → last_line (xs ++ ys) last ≡ last_line ys (last_line xs last)
  unfolding last_line
  last_line-append [] last = refl
  last_line-append (x ∷ xs) last = last_line-append xs (if is_passed x then last else trim_space x)

-- A tag and its URI line alone
module _ (tag uri : Text) (p : IsPair (tag, uri)) where
  pub strip-pair : strip 2 (tag ∷ uri ∷ []) ≡ []
  unfolding strip next_uri
  strip-pair = rw (p.1, strip) (rw (p.2) refl)

  pub variants-pair : variants 2 (tag ∷ uri ∷ []) ≡ (tag, uri) ∷ []
  unfolding variants next_uri
  variants-pair = rw (p.1, variants) (rw (p.2) (rw (p.0) refl))

  pub pick-pair : (best : Best) → pick 2 (tag ∷ uri ∷ []) best ≡ consider tag uri best
  unfolding pick next_uri
  pick-pair best = rw (p.1, pick) (rw (p.2) (rw (p.0) refl))

  pub last_line-pair : (last : Text) → last_line (tag ∷ uri ∷ []) last ≡ trim_space uri
  unfolding last_line
  last_line-pair last = rw (p.2, last_line) refl

-- The variant that pass 1 chose, if it chose one
abbrev pub chosen : List Text → Option (Text × Text)
chosen lines = (pick (length lines) lines no_best).variant_lines

All_Mem : {A : Type 0} (P : A → Type 0) (a : A) (xs : List A) → All P xs → Memᴰ a xs → P a
All_Mem P a [] h m = elim m [ ]
All_Mem P a (x ∷ xs) h (Memᴰ.head e) = rw e (h.0)
All_Mem P a (x ∷ xs) h (Memᴰ.tail m) = All_Mem P a xs (h.1) m

module _ (lines : List Text) (v : Text × Text) (e : chosen lines ≡ some v) where
  pick_best_at : IsChosen (variants (length lines) lines) (pick (length lines) lines no_best)
  pick_best_at = elim ((pick_best lines).1) [
    | inl initial ↦ absurd (ground (arith, initial, e))
    | inr it ↦ it
  ]

  pub chosen-IsPair : All (Without 10) lines → IsPair v
  chosen-IsPair h =
      let (w, l, p, b, m) = pick_best_at in
      let same : w ≡ v = ground (arith, l, e) in
      rw (← same) (
        All_Mem IsPair w (variants (length lines) lines) (variants-IsPair (length lines) lines h) m)

  -- Alone, the chosen variant is chosen again.
  pub chosen_again : (consider (v.0) (v.1) no_best).variant_lines ≡ some v
  unfolding consider
  chosen_again =
      let (w, l, p, b, m) = pick_best_at in
      let same : w ≡ v = ground (arith, l, e) in
      elim (pick-IsAbove lines) [
        | inl initial ↦ absurd (ground (arith, initial, e))
        | inr wins ↦
            let again : better (pixels_of (v.0) (v.1)) (pos (bandwidth_of (v.0))) no_best ≡ true =
              rw (← same) (rw (← p) (rw (← b) wins)) in
            rw (again, consider) refl
      ]
