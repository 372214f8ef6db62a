-- ===== src/Base/Decimal.antt =====
-- `strconv.Itoa`, `strconv.ParseInt` and `strconv.Atoi` in base ten, over a 64-bit `int`.
use Prim.Native.Nat.{ℕ, zero, suc, ◌+◌, ◌-◌, ◌*◌, ◌/◌, ◌%◌, ◌^◌, ◌≤◌, ◌<◌}
use mathlib.Core.Path.{◌≡◌, refl, ◌∙◌}
use mathlib.Core.Logic.{inl, inr}
use mathlib.Core.Bool.{◌&&◌}
use mathlib.Core.List.{[], ◌∷◌}
use mathlib.Core.Option.{Option, none, some}
use native.Mathlib.Omega.{arith}
use goflix.Base.Tests.{ltb, leb, ◌==◌, if◌then◌else◌, Bool-cases}
use goflix.Base.Lists.{All}
use goflix.Base.Bytes.{Text}
use goflix.Base.Int.{ℤ, pos, sub_ℕ}

-- The digits of `n` in front of `out`; `suc n` rounds are more than enough.
unfoldable pub digits : ℕ → ℕ → Text → Text
digits zero n out = out
digits (suc fuel) n out =
    let here = (b'0' + n % 10) ∷ out in
    let more = digits fuel (n / 10) here in if ltb n 10 then here else more

unfoldable pub itoa : ℕ → Text
unfolding digits
itoa n = digits (suc n) n []

-- The value of a row of digits behind `acc`; `none` at any other byte.
unfoldable pub scan : ℕ → Text → Option ℕ
scan acc [] = some acc
scan acc (c ∷ s) = if leb b'0' c && leb c b'9' then scan (acc * 10 + (c - b'0')) s else none

unfoldable pub magnitude : Text → Option ℕ
unfolding scan
magnitude [] = none
magnitude (c ∷ s) = scan 0 (c ∷ s)

abbrev pub max_int : ℕ
max_int = 2 ^ 63 - 1

abbrev in_range_pos : Option ℕ → Option ℤ
in_range_pos none = none
in_range_pos (some v) = if leb v max_int then some (pos v) else none

abbrev in_range_neg : Option ℕ → Option ℤ
in_range_neg none = none
in_range_neg (some v) = if leb v (2 ^ 63) then some (sub_ℕ 0 v) else none

-- `none` stands for an error.
unfoldable pub parse_int : Text → Option ℤ
unfolding magnitude
parse_int [] = none
parse_int (c ∷ s) =
    if c == b'+'
    then in_range_pos (magnitude s)
    else if c == b'-'
    then in_range_neg (magnitude s)
    else in_range_pos (magnitude (c ∷ s))

abbrev pub IsDigit : ℕ → Type 0
IsDigit c = (b'0' ≤ c) × (c ≤ b'9')

scan-digits : (fuel n : ℕ) (out : Text) → n < fuel → scan 0 (digits fuel n out) ≡ scan n out
unfolding digits scan
scan-digits zero n out h = elim h [ ]
scan-digits (suc fuel) n out h = elim (Bool-cases (ltb n 10)) [
  | inl last ↦ rw (last, digits) (ground arith)
  | inr more ↦
      rw (more, digits)
        (scan-digits fuel (n / 10) ((b'0' + n % 10) ∷ out) (ground arith) ∙ ground arith)
]

digits_shape :
    (fuel n : ℕ) (out : Text)
    → n < fuel
    → (c : ℕ) × (s : Text) × (digits fuel n out ≡ c ∷ s)
      × IsDigit c
      × (All IsDigit out → All IsDigit s)
unfolding digits
digits_shape zero n out h = elim h [ ]
digits_shape (suc fuel) n out h = elim (Bool-cases (ltb n 10)) [
  | inl last ↦ rw (last, digits) (b'0' + n % 10, out, refl, (omega arith), (λ d. d))
  | inr more ↦
      let (c, s, e, d, rest) = digits_shape fuel (n / 10) ((b'0' + n % 10) ∷ out) (ground arith) in
      rw (more, digits) (c, s, e, d, λ ds. rest ((omega arith), ds))
]

-- A printed number is a row of digits, at least one.
pub itoa_shape : (n : ℕ) → (c : ℕ) × (s : Text) × (itoa n ≡ c ∷ s) × IsDigit c × All IsDigit s
unfolding itoa
itoa_shape n =
    let (c, s, e, d, rest) = digits_shape (suc n) n [] (omega arith) in (c, s, e, d, rest tt)

pub itoa-IsDigit : (n : ℕ) → All IsDigit (itoa n)
itoa-IsDigit n = let (c, s, e, d, rest) = itoa_shape n in rw e (d, rest)

pub scan-itoa : (n : ℕ) → scan 0 (itoa n) ≡ some n
unfolding itoa
scan-itoa n = scan-digits (suc n) n [] (omega arith) ∙ (scan_end n)
  where
    scan_end : (n : ℕ) → scan n [] ≡ some n
    scan_end n = unfold scan in refl

pub parse_int_digits :
    (c : ℕ) (s : Text) (n : ℕ)
    → IsDigit c
    → scan 0 (c ∷ s) ≡ some n
    → n ≤ max_int
    → parse_int (c ∷ s) ≡ some (pos n)
unfolding parse_int
parse_int_digits c s n d h small = ground (arith, h)

-- What `Itoa` prints `ParseInt` reads back.
pub parse_int-itoa : (n : ℕ) → n ≤ max_int → parse_int (itoa n) ≡ some (pos n)
parse_int-itoa n h =
    let (c, s, e, d, rest) = itoa_shape n in
    rw e (parse_int_digits c s n d (rw e at (scan-itoa n)) h)
