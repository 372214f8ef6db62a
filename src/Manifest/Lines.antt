-- ===== src/Manifest/Lines.antt =====
-- Lines of a playlist: trimming twice, and splitting what was joined.
use goflix.Base.{
  List, [], ◌∷◌, ℕ, false, Text, ◌==◌, ◌≡◌, refl, sym, ap, ◌∙◌, inl, inr, ◌⊎◌, All, Bool-cases,
  List-cases, arith,
}
use goflix.Base.Strings.{
  is_space, trim_left, trim_right, trim_space, Without, split, join, split_shape, split-append,
  split-Without,
}

trim_right_idem : (s : Text) → trim_right (trim_right s) ≡ trim_right s
unfolding trim_right
trim_right_idem [] = refl
trim_right_idem (c ∷ s) = elim (List-cases (trim_right s)) [
  | inl blank ↦ ground (arith, blank)
  | inr (x, r, e) ↦
      let again : trim_right (x ∷ r) ≡ x ∷ r = ap trim_right (sym e) ∙ (trim_right_idem s ∙ e) in
      rw e (rw again)
]

trim_right_head :
    (c : ℕ) (s : Text) → is_space c ≡ false → (r : Text) × (trim_right (c ∷ s) ≡ c ∷ r)
unfolding trim_right
trim_right_head c s solid = elim (List-cases (trim_right s)) [
  | inl blank ↦ ([], ground (arith, blank, solid))
  | inr (x, r, e) ↦ (x ∷ r, rw e)
]

trim_left_shape :
    (s : Text)
    → (trim_left s ≡ []) ⊎ ((c : ℕ) × (r : Text) × (trim_left s ≡ c ∷ r) × (is_space c ≡ false))
unfolding trim_left
trim_left_shape [] = inl refl
trim_left_shape (c ∷ s) = elim (Bool-cases (is_space c)) [
  | inl space ↦ rw space (trim_left_shape s)
  | inr solid ↦ rw solid (inr (c, s, refl, solid))
]

-- Trimming a trimmed text changes nothing.
pub trim_space_idem : (s : Text) → trim_space (trim_space s) ≡ trim_space s
unfolding trim_space trim_left trim_right
trim_space_idem s = elim (trim_left_shape s) [
  | inl blank ↦ rw blank
  | inr (c, r, e, solid) ↦
      let (t, f) = trim_right_head c r solid in
      let again : trim_right (c ∷ t) ≡ c ∷ t =
        ap trim_right (sym f) ∙ (trim_right_idem (c ∷ r) ∙ f) in
      rw e (rw f (rw solid again))
]

-- No line holds a line feed.
pub split-All : (b : ℕ) (s : Text) → All (Without b) (split b s)
unfolding split
split-All b [] = (tt, tt)
split-All b (c ∷ s) =
    let (line, rest, e) = split_shape b s in
    let (first, others) : Without b line × All (Without b) rest = rw e at (split-All b s) in
    elim (Bool-cases (c == b)) [
      | inl at ↦ rw e (rw at (tt, (first, others)))
      | inr other ↦ rw e (rw other ((other, first), others))
    ]

-- Splitting a joined row of lines gives the lines back.
pub split-join :
    (b : ℕ) (line : Text) (rest : List Text)
    → All (Without b) (line ∷ rest)
    → split b (join (b ∷ []) (line ∷ rest)) ≡ line ∷ rest
unfolding join
split-join b line [] h = split-Without b line (h.0)
split-join b line (next ∷ rest) h =
    split-append b line (join (b ∷ []) (next ∷ rest)) (h.0)
    ∙ ap (λ x. line ∷ x) (split-join b next rest (h.1))
