-- ===== src/Base/Strings.antt =====
-- The functions of Go's `strings` package that the program uses, on bytes. White space and letters
-- are the ASCII ones.
use Prim.Native.Nat.{ℕ, ◌+◌}
use mathlib.Core.Path.{◌≡◌, refl}
use mathlib.Core.Logic.{inl, inr}
use mathlib.Core.Bool.{Bool, false, ◌&&◌, ◌||◌}
use mathlib.Core.List.{List, [], ◌∷◌, ◌++◌, map}
use mathlib.Core.Option.{Option, none, some}
use native.Mathlib.Omega.{arith}
use goflix.Base.Tests.{leb, ◌==◌, if◌then◌else◌, is_some, Bool-cases}
use goflix.Base.Lists.{All}
use goflix.Base.Bytes.{Text}

unfoldable pub is_space : ℕ → Bool
is_space c = c == 32 || (leb 9 c && leb c 13)

unfoldable pub trim_left : Text → Text
trim_left [] = []
trim_left (c ∷ s) = if is_space c then trim_left s else c ∷ s

unfoldable pub trim_right : Text → Text
trim_right [] = []
trim_right (c ∷ s) = elim (trim_right s) [
  | [] ↦ if is_space c then [] else c ∷ []
  | x ∷ r ↦ c ∷ x ∷ r
]

-- `strings.TrimSpace`
unfoldable pub trim_space : Text → Text
unfolding trim_left trim_right is_space
trim_space s = trim_right (trim_left s)

-- `strings.CutPrefix`
unfoldable pub cut_prefix : Text → Text → Option Text
cut_prefix [] s = some s
cut_prefix (p ∷ ps) [] = none
cut_prefix (p ∷ ps) (c ∷ s) = if c == p then cut_prefix ps s else none

abbrev pub has_prefix : Text → Text → Bool
has_prefix p s = is_some (cut_prefix p s)

-- `strings.Contains(s, sub)`
unfoldable pub contains : Text → Text → Bool
unfolding cut_prefix
contains sub [] = has_prefix sub []
contains sub (c ∷ s) = has_prefix sub (c ∷ s) || contains sub s

-- `strings.Cut` at a byte: what stands before and behind its first occurrence.
unfoldable pub cut : ℕ → Text → Option (Text × Text)
cut b [] = none
cut b (c ∷ s) =
    if c == b
    then some ([], s)
    else elim (cut b s) [ none ↦ none | some (before, after) ↦ some (c ∷ before, after) ]

-- `strings.Cut` at a text: what stands before and behind its first occurrence.
unfoldable pub cut_text : Text → Text → Option (Text × Text)
unfolding cut_prefix
cut_text sep [] = elim (cut_prefix sep []) [ some rest ↦ some ([], rest) | none ↦ none ]
cut_text sep (c ∷ s) = elim (cut_prefix sep (c ∷ s)) [
  | some rest ↦ some ([], rest)
  | none ↦ elim (cut_text sep s) [ none ↦ none | some (before, after) ↦ some (c ∷ before, after) ]
]

-- `strings.Split` at a byte
unfoldable pub split : ℕ → Text → List Text
split b [] = [] ∷ []
split b (c ∷ s) = elim (split b s) [
  | [] ↦ [] ∷ []
  | line ∷ rest ↦ if c == b then [] ∷ line ∷ rest else (c ∷ line) ∷ rest
]

-- `strings.Join`
unfoldable pub join : Text → List Text → Text
join sep [] = []
join sep (s ∷ []) = s
join sep (s ∷ t ∷ rest) = s ++ (sep ++ join sep (t ∷ rest))

unfoldable pub to_lower_byte : ℕ → ℕ
to_lower_byte c = if leb b'A' c && leb c b'Z' then c + 32 else c

-- `strings.ToLower`
unfoldable pub to_lower : Text → Text
unfolding to_lower_byte
to_lower s = map to_lower_byte s

abbrev pub IsSolid : ℕ → Type 0
IsSolid c = is_space c ≡ false

pub trim_right_solid : (s : Text) → All IsSolid s → trim_right s ≡ s
unfolding trim_right
trim_right_solid [] h = refl
trim_right_solid (c ∷ []) h = ground (arith, h.0)
trim_right_solid (c ∷ d ∷ s) h = rw (trim_right_solid (d ∷ s) h.1)

-- A text with no white space is its own trimming.
pub trim_space_solid : (s : Text) → All IsSolid s → trim_space s ≡ s
unfolding trim_space
trim_space_solid [] h = refl
trim_space_solid (c ∷ s) h = rw (h.0) (trim_right_solid (c ∷ s) h)

abbrev pub Without : ℕ → Text → Type 0
Without b = All (λ c. (c == b) ≡ false)

pub cut-append : (b : ℕ) (s t : Text) → Without b s → cut b (s ++ b ∷ t) ≡ some (s, t)
unfolding cut
cut-append b [] t h = ground arith
cut-append b (c ∷ s) t h = rw (h.0, cut-append b s t h.1)

pub split-Without : (b : ℕ) (s : Text) → Without b s → split b s ≡ s ∷ []
unfolding split
split-Without b [] h = refl
split-Without b (c ∷ s) h = rw (split-Without b s h.1) (rw (h.0))

-- A split has at least one part.
pub split_shape :
    (b : ℕ) (s : Text) → (line : Text) × (rest : List Text) × (split b s ≡ line ∷ rest)
unfolding split
split_shape b [] = ([], [], refl)
split_shape b (c ∷ s) = elim (Bool-cases (c == b)) [
  | inl here ↦ let (line, rest, e) = split_shape b s in ([], line ∷ rest, rw e (rw here))
  | inr there ↦ let (line, rest, e) = split_shape b s in (c ∷ line, rest, rw e (rw there))
]

pub split-append : (b : ℕ) (s t : Text) → Without b s → split b (s ++ b ∷ t) ≡ s ∷ split b t
unfolding split
split-append b [] t h = let (line, rest, e) = split_shape b t in rw e (ground arith)
split-append b (c ∷ s) t h = rw (split-append b s t h.1) (rw (h.0))
