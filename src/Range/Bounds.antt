-- ===== src/Range/Bounds.antt =====
-- Every accepted range lies in the body, and each way to write a range is accepted.
use goflix.Base.{
  ℕ, ◌-◌, ◌≤◌, ◌<◌, min, false, [], ◌∷◌, ◌++◌, none, some, Text, codes, leb, ltb, if◌then◌else◌,
  ◌≡◌, refl, arith, inl, inr, All, ◌∙◌, ◌||◌, Option-cases,
}
use goflix.Base.Strings.{
  trim_space, cut_prefix, cut, is_space, IsSolid, trim_space_solid, Without, cut-append,
}
use goflix.Base.Decimal.{itoa, IsDigit, itoa_shape, itoa-IsDigit, parse_int-itoa, max_int}
use goflix.Range.{
  suffix_range, open_range, closed_range, range_of, parse_part, parse_byte_range, contains_byte,
}

range_of_bounds :
    (first last : Text) (size s e : ℕ)
    → 0 < size
    → range_of first last size ≡ some (s, e)
    → (s ≤ e) × (e < size)
unfolding range_of
range_of_bounds [] last size s e p h = ground arith
range_of_bounds (c ∷ first) [] size s e p h = ground arith
range_of_bounds (c ∷ first) (d ∷ last) size s e p h = ground arith

parse_part_bounds :
    (part : Text) (size s e : ℕ)
    → 0 < size
    → parse_part part size ≡ some (s, e)
    → (s ≤ e) × (e < size)
unfolding parse_part
parse_part_bounds part size s e p h = elim (Option-cases (cut b'-' part)) [
  | inl missing ↦ ground (arith, missing, h)
  | inr ((first, last), found) ↦
      ground (arith, found, h, range_of_bounds (trim_space first) (trim_space last) size s e p)
]

-- Whatever the header says, a range that is accepted is not empty and lies within the body.
pub parse_byte_range_bounds :
    (spec : Text) (size s e : ℕ) → parse_byte_range spec size ≡ some (s, e) → (s ≤ e) × (e < size)
unfolding parse_byte_range
parse_byte_range_bounds spec size s e h =
    elim (Option-cases (cut_prefix (codes "bytes=") (trim_space spec))) [
      | inl missing ↦ ground (arith, missing, h)
      | inr (rest, found) ↦ ground (arith, found, h, parse_part_bounds (trim_space rest) size s e)
    ]

-- A printed number holds no white space, no dash and no comma.
IsDigit-IsSolid : (s : Text) → All IsDigit s → All IsSolid s
unfolding is_space
IsDigit-IsSolid [] h = tt
IsDigit-IsSolid (c ∷ s) h = (ground (arith, h.0), IsDigit-IsSolid s h.1)

IsDigit-Without : (b : ℕ) (s : Text) → b < b'0' → All IsDigit s → Without b s
IsDigit-Without b [] small h = tt
IsDigit-Without b (c ∷ s) small h = (ground (arith, h.0), IsDigit-Without b s small h.1)

contains_byte_append :
    (b : ℕ) (s t : Text) → Without b s → contains_byte b (s ++ t) ≡ contains_byte b t
contains_byte_append b [] t h = refl
contains_byte_append b (c ∷ s) t h = rw (h.0) (contains_byte_append b s t h.1)

All-append_lem : (s t : Text) → All IsSolid s → All IsSolid t → All IsSolid (s ++ t)
All-append_lem [] t h k = k
All-append_lem (c ∷ s) t h k = (h.0, All-append_lem s t h.1 k)

-- The text of a closed range, of an open one and of a suffix.
abbrev pub print_range : Text → Text → Text
print_range first last = codes "bytes=" ++ (first ++ b'-' ∷ last)

parse_part_dash :
    (first last : Text) (size : ℕ)
    → All IsDigit first
    → All IsDigit last
    → parse_part (first ++ b'-' ∷ last) size ≡ range_of first last size
unfolding parse_part
parse_part_dash first last size f l =
    rw (contains_byte_append b',' first (b'-' ∷ last) (IsDigit-Without b',' first (omega arith) f))
      (rw (no_comma last l) (
        rw (cut-append b'-' first last (IsDigit-Without b'-' first (omega arith) f)) (
          rw (trim_space_solid first (IsDigit-IsSolid first f))
            (rw (trim_space_solid last (IsDigit-IsSolid last l))))))
  where
    no_comma : (s : Text) → All IsDigit s → contains_byte b',' s ≡ false
    no_comma [] h = refl
    no_comma (c ∷ s) h = ground (arith, h.0, no_comma s h.1)

-- The header as a whole, for two sides of digits.
parse_byte_range_dash :
    (first last : Text) (size : ℕ)
    → 0 < size
    → All IsDigit first
    → All IsDigit last
    → parse_byte_range (print_range first last) size ≡ range_of first last size
unfolding parse_byte_range cut_prefix
parse_byte_range_dash first last size p f l =
    let part = first ++ b'-' ∷ last in
    let solid : All IsSolid part =
      All-append_lem first (b'-' ∷ last) (IsDigit-IsSolid first f)
        (dash_solid, IsDigit-IsSolid last l) in
    rw (trim_space_solid (print_range first last) (prefix_solid part solid), parse_byte_range)
      (rw (trim_space_solid part solid) (rw (parse_part_dash first last size f l) (ground arith)))
  where
    dash_solid : IsSolid b'-'
    dash_solid = unfold is_space in refl

    prefix_solid : (part : Text) → All IsSolid part → All IsSolid (codes "bytes=" ++ part)
    prefix_solid part h = unfold is_space in (refl, (refl, (refl, (refl, (refl, (refl, h))))))

closed_range-itoa :
    (s e size : ℕ)
    → s ≤ max_int
    → e ≤ max_int
    → closed_range (itoa s) (itoa e) size
      ≡ (if ltb e s || leb size s then none else some (s, min e (size - 1)))
unfolding closed_range
closed_range-itoa s e size hs he =
    rw (parse_int-itoa s hs, closed_range) (rw (parse_int-itoa e he) (ground arith))

open_range-itoa :
    (s size : ℕ)
    → s ≤ max_int
    → open_range (itoa s) size ≡ (if leb size s then none else some (s, size - 1))
unfolding open_range
open_range-itoa s size hs = rw (parse_int-itoa s hs, open_range)

suffix_range-itoa :
    (n size : ℕ)
    → n ≤ max_int
    → suffix_range (itoa n) size ≡ (if leb n 0 then none else some (size - n, size - 1))
unfolding suffix_range
suffix_range-itoa n size hn = rw (parse_int-itoa n hn, suffix_range) (ground arith)

range_of-itoa :
    (s e size : ℕ) → range_of (itoa s) (itoa e) size ≡ closed_range (itoa s) (itoa e) size
unfolding range_of
range_of-itoa s e size =
    let (c, cs, p, _, _) = itoa_shape s in let (d, ds, q, _, _) = itoa_shape e in rw p (rw q)

range_of-itoa_open : (s size : ℕ) → range_of (itoa s) [] size ≡ open_range (itoa s) size
unfolding range_of
range_of-itoa_open s size = let (c, cs, p, _, _) = itoa_shape s in rw p

range_of-itoa_suffix : (n size : ℕ) → range_of [] (itoa n) size ≡ suffix_range (itoa n) size
unfolding range_of
range_of-itoa_suffix n size = refl

-- The three ways to write a range, for 64-bit numbers and a body that is not empty. `bytes=s-e`
-- gives the bytes from `s` to `e`, cut at the end of the body, and is refused if `e` precedes `s`
-- or `s` lies behind the body. `bytes=s-` runs to the end. `bytes=-n` gives the last `n` bytes, or
-- the whole body if it is shorter, and is refused for 0.
pub parse_byte_range-print_range :
    (s e size : ℕ)
    → s ≤ max_int
    → e ≤ max_int
    → 0 < size
    → (parse_byte_range (print_range (itoa s) (itoa e)) size
        ≡ (if ltb e s || leb size s then none else some (s, min e (size - 1))))
      × (parse_byte_range (print_range (itoa s) []) size
          ≡ (if leb size s then none else some (s, size - 1)))
      × (parse_byte_range (print_range [] (itoa s)) size
          ≡ (if leb s 0 then none else some (size - s, size - 1)))
parse_byte_range-print_range s e size hs he p =
    let fs = itoa-IsDigit s in
    let fe = itoa-IsDigit e in
    (
      parse_byte_range_dash (itoa s) (itoa e) size p fs fe
          ∙ (range_of-itoa s e size ∙ closed_range-itoa s e size hs he),
      parse_byte_range_dash (itoa s) [] size p fs tt
          ∙ (range_of-itoa_open s size ∙ open_range-itoa s size hs),
      parse_byte_range_dash [] (itoa s) size p tt fs
          ∙ (range_of-itoa_suffix s size ∙ suffix_range-itoa s size hs),
    )
