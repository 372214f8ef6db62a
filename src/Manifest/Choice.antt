-- ===== src/Manifest/Choice.antt =====
-- Which variant is chosen: one that no other beats.
use goflix.Base.{
  List, [], ◌∷◌, ℕ, zero, suc, ◌≤◌, true, false, none, some, Text, length, ◌≡◌, refl, sym, ap, ◌∙◌,
  inl, inr, ◌⊎◌, All, Bool-cases, Option-cases, arith,
}
use mathlib.Core.List.{Memᴰ}
use goflix.Base.Int.{ℤ, pos, negsuc, ◌<ℤ◌, ◌≤ℤ◌}
use goflix.Base.Strings.{trim_space}
use goflix.Manifest.Numbers.{bandwidth_of, eq_ℤ}
use goflix.Manifest.{
  is_variant, is_passed, next_uri, pixels_of, Best, no_best, better, consider, pick,
}

-- The URI is found behind the tag: fewer lines are left.
pub next_uri_shorter :
    (lines : List Text) (uri : Text) (rest : List Text)
    → next_uri lines ≡ some (uri, rest)
    → suc (length rest) ≤ length lines
unfolding next_uri
next_uri_shorter [] uri rest e = absurd (ground (arith, e))
next_uri_shorter (line ∷ lines) uri rest e = elim (Bool-cases (is_passed line)) [
  | inl passed ↦ ground (arith, next_uri_shorter lines uri rest (ground (arith, passed, e)))
  | inr it ↦ ground (arith, it, e)
]

-- The variants of a playlist: a tag, trimmed, and its URI line, a specification of the loop.
unfoldable pub variants : ℕ → List Text → List (Text × Text)
variants zero lines = []
variants (suc fuel) [] = []
variants (suc fuel) (line ∷ lines) = elim (is_variant line) [
  | false ↦ variants fuel lines
  | true ↦ elim (next_uri lines) [
    | none ↦ variants fuel lines
    | some (uri, rest) ↦ (trim_space line, uri) ∷ variants fuel rest
  ]
]

variants_none : (fuel : ℕ) → variants fuel [] ≡ []
unfolding variants
variants_none zero = refl
variants_none (suc fuel) = refl

-- More rounds than lines change nothing.
pub variants_fuel :
    (m n : ℕ) (lines : List Text)
    → length lines ≤ m
    → length lines ≤ n
    → variants m lines ≡ variants n lines
unfolding variants
variants_fuel m n [] h k = variants_none m ∙ sym (variants_none n)
variants_fuel zero n (line ∷ lines) h k = absurd (ground (arith, h))
variants_fuel (suc m) zero (line ∷ lines) h k = absurd (ground (arith, k))
variants_fuel (suc m) (suc n) (line ∷ lines) h k =
    let ih : variants m lines ≡ variants n lines =
      variants_fuel m n lines (ground (arith, h)) (ground (arith, k)) in
    elim (Bool-cases (is_variant line)) [
      | inr plain ↦ rw (plain, variants) ih
      | inl tag ↦ elim (Option-cases (next_uri lines)) [
        | inl dangling ↦ rw (tag, variants) (rw dangling ih)
        | inr ((uri, rest), e) ↦
            let shorter = next_uri_shorter lines uri rest e in
            rw (tag, variants)
              (rw e (
                ap (λ x. (trim_space line, uri) ∷ x)
                  (variants_fuel m n rest (ground (arith, h, shorter))
                    (ground (arith, k, shorter)))))
      ]
    ]

unfoldable pub consider_all : List (Text × Text) → Best → Best
consider_all [] best = best
consider_all ((tag, uri) ∷ vs) best = consider_all vs (consider tag uri best)

-- The loop considers the variants in order.
pub pick-variants :
    (fuel : ℕ) (lines : List Text) (best : Best)
    → pick fuel lines best ≡ consider_all (variants fuel lines) best
unfolding pick variants consider_all
pick-variants zero lines best = refl
pick-variants (suc fuel) [] best = refl
pick-variants (suc fuel) (line ∷ lines) best = elim (Bool-cases (is_variant line)) [
  | inr plain ↦ rw (plain, pick, variants) (pick-variants fuel lines best)
  | inl tag ↦ elim (Option-cases (next_uri lines)) [
    | inl dangling ↦ rw (tag, pick, variants) (rw dangling (pick-variants fuel lines best))
    | inr ((uri, rest), e) ↦
        rw (tag, pick, variants)
          (rw e (pick-variants fuel rest (consider (trim_space line) uri best)))
  ]
]

-- The variant of the row has fewer pixels than `best`, or as many and no more bandwidth.
abbrev pub IsUnbeaten : Best → Text × Text → Type 0
IsUnbeaten best (tag, uri) =
    (pixels_of tag uri <ℤ best.max_pixels)
    ⊎ ((pixels_of tag uri ≡ best.max_pixels) × (pos (bandwidth_of tag) ≤ℤ best.max_bandwidth))

-- The test of the loop keeps `best` against the variant of the row.
abbrev IsKept : Best → Text × Text → Type 0
IsKept best (tag, uri) = better (pixels_of tag uri) (pos (bandwidth_of tag)) best ≡ false

eq_ℤ-sound : (a b : ℤ) → eq_ℤ a b ≡ true → a ≡ b
eq_ℤ-sound (pos m) (pos n) h = ap pos (ground (arith, h))
eq_ℤ-sound (pos m) (negsuc n) h = absurd (ground (arith, h))
eq_ℤ-sound (negsuc m) (pos n) h = absurd (ground (arith, h))
eq_ℤ-sound (negsuc m) (negsuc n) h = ap negsuc (ground (arith, h))

-- The test of the loop is the order: pixels first, then bandwidth.
better-IsUnbeaten : (best : Best) (v : Text × Text) → IsKept best v → IsUnbeaten best v
unfolding better
better-IsUnbeaten best (tag, uri) h = elim (Bool-cases (eq_ℤ (pixels_of tag uri) best.max_pixels)) [
  | inl same ↦ inr (eq_ℤ-sound (pixels_of tag uri) best.max_pixels same, ground (arith, h, same))
  | inr differ ↦ inl (ground (arith, h, differ))
]

all-IsUnbeaten :
    (best : Best) (vs : List (Text × Text)) → All (IsKept best) vs → All (IsUnbeaten best) vs
all-IsUnbeaten best [] h = tt
all-IsUnbeaten best (v ∷ vs) h = (better-IsUnbeaten best v h.0, all-IsUnbeaten best vs h.1)

-- `best` holds a variant of the row, with its two numbers.
abbrev pub IsChosen : List (Text × Text) → Best → Type 0
IsChosen vs best =
    (v : Text × Text) × (best.variant_lines ≡ some v)
    × (best.max_pixels ≡ pixels_of (v.0) (v.1))
    × (best.max_bandwidth ≡ pos (bandwidth_of (v.0)))
    × Memᴰ v vs

-- A better state than `b` beats what `b` beats.
better_trans :
    (p q bw bw' : ℤ) (b c : Best)
    → c.max_pixels ≡ q
    → c.max_bandwidth ≡ bw'
    → better q bw' b ≡ true
    → better p bw b ≡ false
    → better p bw c ≡ false
unfolding better
better_trans p q bw bw' b c e e' h k = ground (arith, e, e', h, k)

module _ (tag uri : Text) (best : Best) where
  consider-keeps : (v : Text × Text) → IsKept best v → IsKept (consider tag uri best) v
  unfolding consider
  consider-keeps (tag', uri') h =
      let p = pixels_of tag uri in
      let bw : ℤ = pos (bandwidth_of tag) in
      elim (Bool-cases (better p bw best)) [
        | inl wins ↦
            rw (wins, consider)
              (better_trans (pixels_of tag' uri') p (pos (bandwidth_of tag')) bw best
                (record { max_bandwidth = bw; max_pixels = p; variant_lines = some (tag, uri) })
                refl refl wins h)
        | inr loses ↦ rw (loses, consider) h
      ]

  consider-IsKept : IsKept (consider tag uri best) (tag, uri)
  unfolding consider better
  consider-IsKept = elim (Bool-cases (better (pixels_of tag uri) (pos (bandwidth_of tag)) best)) [
    | inl wins ↦ rw (wins, consider) (ground arith)
    | inr loses ↦ rw (loses, consider) loses
  ]

consider_all-keeps :
    (vs : List (Text × Text)) (best : Best) (v : Text × Text)
    → IsKept best v
    → IsKept (consider_all vs best) v
unfolding consider_all
consider_all-keeps [] best v h = h
consider_all-keeps ((tag, uri) ∷ vs) best v h =
    consider_all-keeps vs (consider tag uri best) v (consider-keeps tag uri best v h)

consider_all-IsKept :
    (vs : List (Text × Text)) (best : Best) → All (IsKept (consider_all vs best)) vs
unfolding consider_all
consider_all-IsKept [] best = tt
consider_all-IsKept ((tag, uri) ∷ vs) best = (
  consider_all-keeps vs (consider tag uri best) (tag, uri) (consider-IsKept tag uri best),
  consider_all-IsKept vs (consider tag uri best),
)

-- The state after one variant is the state before it or holds that variant.
consider-cases :
    (tag uri : Text) (best : Best) (vs : List (Text × Text))
    → (consider tag uri best ≡ best) ⊎ IsChosen ((tag, uri) ∷ vs) (consider tag uri best)
unfolding consider
consider-cases tag uri best vs =
    elim (Bool-cases (better (pixels_of tag uri) (pos (bandwidth_of tag)) best)) [
      | inl wins ↦ rw (wins, consider) (inr ((tag, uri), refl, refl, refl, Memᴰ.head refl))
      | inr loses ↦ rw (loses, consider) (inl refl)
    ]

consider_all-cases :
    (vs : List (Text × Text)) (best : Best)
    → (consider_all vs best ≡ best) ⊎ IsChosen vs (consider_all vs best)
unfolding consider_all
consider_all-cases [] best = inl refl
consider_all-cases ((tag, uri) ∷ vs) best = elim (consider_all-cases vs (consider tag uri best)) [
  | inr (v, l, p, b, m) ↦ inr (v, l, p, b, Memᴰ.tail m)
  | inl same ↦ rw same (consider-cases tag uri best vs)
]

abbrev pub IsAbove : Best → Best → Type 0
IsAbove b r = (r ≡ b) ⊎ (better (r.max_pixels) (r.max_bandwidth) b ≡ true)

IsAbove-trans : (b c r : Best) → IsAbove b c → IsAbove c r → IsAbove b r
IsAbove-trans b c r h k = elim k [
  | inl same ↦ rw same h
  | inr up ↦ elim h [
    | inl same ↦ inr (rw same at up)
    | inr before ↦ inr (unfold better in ground (arith, before, up))
  ]
]

consider-IsAbove : (tag uri : Text) (b : Best) → IsAbove b (consider tag uri b)
unfolding consider
consider-IsAbove tag uri b =
    elim (Bool-cases (better (pixels_of tag uri) (pos (bandwidth_of tag)) b)) [
      | inl wins ↦ rw (wins, consider) (inr wins)
      | inr loses ↦ rw (loses, consider) (inl refl)
    ]

-- The state never gets worse.
consider_all-IsAbove : (vs : List (Text × Text)) (b : Best) → IsAbove b (consider_all vs b)
unfolding consider_all
consider_all-IsAbove [] b = inl refl
consider_all-IsAbove ((tag, uri) ∷ vs) b =
    IsAbove-trans b (consider tag uri b) (consider_all vs (consider tag uri b))
      (consider-IsAbove tag uri b) (consider_all-IsAbove vs (consider tag uri b))

pub pick-IsAbove : (lines : List Text) → IsAbove no_best (pick (length lines) lines no_best)
pick-IsAbove lines =
    rw (pick-variants (length lines) lines no_best)
      (consider_all-IsAbove (variants (length lines) lines) no_best)

-- Pass 1 of `forceHighestQuality`: no variant of the playlist has more pixels than the state it
-- ends in, or as many and more bandwidth; and that state is the initial one or holds one of the
-- variants with its own two numbers.
pub pick_best :
    (lines : List Text)
    → All (IsUnbeaten (pick (length lines) lines no_best)) (variants (length lines) lines)
      × ((pick (length lines) lines no_best ≡ no_best)
          ⊎ IsChosen (variants (length lines) lines) (pick (length lines) lines no_best))
pick_best lines =
    let vs = variants (length lines) lines in
    rw (pick-variants (length lines) lines no_best) (
      all-IsUnbeaten (consider_all vs no_best) vs (consider_all-IsKept vs no_best),
      consider_all-cases vs no_best,
    )
