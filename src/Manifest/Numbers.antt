-- ===== src/Manifest/Numbers.antt =====
-- Numbers in tags: the regular expressions `BANDWIDTH=(\d+)` and `RESOLUTION=(\d+)x(\d+)`, `Atoi`
-- with its error dropped, and the wrapping product of two 64-bit integers.
use goflix.Base.{
  [], ◌∷◌, ℕ, ◌+◌, ◌-◌, ◌*◌, ◌%◌, ◌^◌, min, Bool, ◌&&◌, Option, none, some, Text, codes, ◌==◌, leb,
  ltb, if◌then◌else◌, map,
}
use goflix.Base.Int.{ℤ, pos, negsuc, pos_part, neg_part}
use goflix.Base.Strings.{cut_prefix}
use goflix.Base.Decimal.{scan, max_int}

abbrev is_digit : ℕ → Bool
is_digit c = leb b'0' c && leb c b'9'

-- `\d+`, greedy: the digits in front and the rest.
unfoldable pub leading : Text → Text × Text
leading [] = ([], [])
leading (c ∷ s) =
    if is_digit c then (let (digits, rest) = leading s in (c ∷ digits, rest)) else ([], c ∷ s)

-- `n, _ := strconv.Atoi(digits)`, which is the largest integer when the digits are too many.
unfoldable pub atoi_digits : Text → ℕ
atoi_digits s = elim (scan 0 s) [ none ↦ 0 | some n ↦ min n max_int ]

-- `prefix(\d+)` at the front of `s`: the digits and what stands behind them.
unfoldable pub number_at : Text → Text → Option (Text × Text)
number_at prefix s = elim (cut_prefix prefix s) [
  | none ↦ none
  | some behind ↦
      let (digits, rest) = leading behind in
      elim digits [ [] ↦ none | d ∷ ds ↦ some (d ∷ ds, rest) ]
]

-- The leftmost match of `BANDWIDTH=(\d+)`; 0 without one.
unfoldable pub bandwidth_of : Text → ℕ
bandwidth_of [] = 0
bandwidth_of (c ∷ s) = elim (number_at (codes "BANDWIDTH=") (c ∷ s)) [
  | none ↦ bandwidth_of s
  | some (digits, rest) ↦ atoi_digits digits
]

unfoldable pub resolution_at : Text → Option (ℕ × ℕ)
resolution_at s = elim (number_at (codes "RESOLUTION=") s) [
  | none ↦ none
  | some (w, rest) ↦ elim (number_at (codes "x") rest) [
    | none ↦ none
    | some (h, _) ↦ some (atoi_digits w, atoi_digits h)
  ]
]

-- The leftmost match of `RESOLUTION=(\d+)x(\d+)`
unfoldable pub resolution_of : Text → Option (ℕ × ℕ)
resolution_of [] = none
resolution_of (c ∷ s) = elim (resolution_at (c ∷ s)) [
  | none ↦ resolution_of s
  | some size ↦ some size
]

-- `w * h` on `int`
unfoldable pub wrap_product : ℕ → ℕ → ℤ
wrap_product w h =
    let p = w * h % 2 ^ 64 in if ltb p (2 ^ 63) then pos p else negsuc (2 ^ 64 - 1 - p)

abbrev pub eq_ℤ : ℤ → ℤ → Bool
eq_ℤ a b = pos_part a + neg_part b == pos_part b + neg_part a

abbrev to_upper_byte : ℕ → ℕ
to_upper_byte c = if leb b'a' c && leb c b'z' then c - 32 else c

-- `strings.ToUpper`
unfoldable pub to_upper : Text → Text
to_upper s = map to_upper_byte s
