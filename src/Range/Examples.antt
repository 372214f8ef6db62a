-- ===== src/Range/Examples.antt =====
-- Byte ranges at concrete inputs.
use goflix.Base.{◌≤◌, ◌<◌, ◌≡◌, refl, none, some, codes}
use goflix.Base.Decimal.{parse_int}
use goflix.Base.Strings.{trim_space, cut_prefix, cut}
use goflix.Range.{parse_byte_range, parse_part, range_of}
use goflix.Range.Bounds.{parse_byte_range_bounds}

closed_header : parse_byte_range (codes " bytes=2-90 ") 10 ≡ some (2, 9)
unfolding parse_byte_range parse_part range_of trim_space cut_prefix cut parse_int
closed_header = refl

several_ranges : parse_byte_range (codes "bytes=0-1,4-5") 10 ≡ none
unfolding parse_byte_range parse_part range_of trim_space cut_prefix cut parse_int
several_ranges = refl

parse_byte_range_bounds_example : (2 ≤ 9) × (9 < 10)
parse_byte_range_bounds_example =
    parse_byte_range_bounds (codes " bytes=2-90 ") 10 2 9 closed_header
