-- ===== src/Range.antt =====
-- `ParseByteRange` of internal/mediaresolver/netutil.go: a single-range `bytes=` header against a
-- body of a given size. A size is not negative; `none` stands for `ok == false`.
pub mod Bounds
mod Examples
use goflix.Base.{
  ℕ, ◌+◌, ◌-◌, Bool, true, false, ◌||◌, [], ◌∷◌, Option, none, some, Text, codes, leb, ltb, ◌==◌,
  if◌then◌else◌, any,
}
use goflix.Base.Int.{ℤ, pos, negsuc}
use goflix.Base.Strings.{trim_space, cut_prefix, cut}
use goflix.Base.Decimal.{parse_int}

abbrev pub contains_byte : ℕ → Text → Bool
contains_byte b = any (λ c. c == b)

-- `bytes=-n`: the last `n` bytes
unfoldable pub suffix_range : Text → ℕ → Option (ℕ × ℕ)
suffix_range last size = elim (parse_int last) [
  | none ↦ none
  | some (negsuc m) ↦ none
  | some (pos n) ↦
      if leb n 0
      then none
      else (let m = if ltb size n then size else n in some (size - m, size - 1))
]

-- `bytes=s-`: from byte `s` on
unfoldable pub open_range : Text → ℕ → Option (ℕ × ℕ)
open_range first size = elim (parse_int first) [
  | none ↦ none
  | some (negsuc m) ↦ none
  | some (pos s) ↦ if leb size s then none else some (s, size - 1)
]

abbrev closed_from : ℤ → ℤ → ℕ → Option (ℕ × ℕ)
closed_from (negsuc m) e size = none
closed_from (pos s) (negsuc m) size = none
closed_from (pos s) (pos e) size =
    if ltb e s || leb size s then none else if leb size e then some (s, size - 1) else some (s, e)

-- `bytes=s-e`
unfoldable pub closed_range : Text → Text → ℕ → Option (ℕ × ℕ)
closed_range first last size = elim (parse_int first) [
  | none ↦ none
  | some s ↦ elim (parse_int last) [ none ↦ none | some e ↦ closed_from s e size ]
]

-- The `switch` over the two sides of the dash.
unfoldable pub range_of : Text → Text → ℕ → Option (ℕ × ℕ)
unfolding suffix_range open_range closed_range
range_of [] last size = suffix_range last size
range_of (c ∷ first) [] size = open_range (c ∷ first) size
range_of (c ∷ first) (d ∷ last) size = closed_range (c ∷ first) (d ∷ last) size

-- What follows `bytes=`.
unfoldable pub parse_part : Text → ℕ → Option (ℕ × ℕ)
parse_part part size = if contains_byte b',' part then none else elim (cut b'-' part) [
  | none ↦ none
  | some (first, last) ↦ range_of (trim_space first) (trim_space last) size
]

unfoldable pub parse_byte_range : Text → ℕ → Option (ℕ × ℕ)
parse_byte_range spec size = elim (cut_prefix (codes "bytes=") (trim_space spec)) [
  | none ↦ none
  | some rest ↦ if leb size 0 then none else parse_part (trim_space rest) size
]
