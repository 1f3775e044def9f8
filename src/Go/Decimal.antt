-- ===== src/Go/Decimal.antt =====
-- strconv.Itoa, Atoi and ParseUint in base 10.
mod Tests
use mathlib.Core.List.{concat-ne-nil}
use qnap_csi.Base.{
  ℕ, zero, suc, ◌+◌, ◌-◌, ◌*◌, ◌/◌, ◌%◌, ◌^◌, ◌≤◌, ◌<◌, ◌≡◌, ◌≢◌, refl, ◌∙◌, Bool, true, false,
  ◌&&◌, Option, none, some, List, [], ◌∷◌, ◌++◌, arith, Text, lit, Result, ok, err, ltb, leb, ◌==◌,
  if◌then◌else◌, All, All-append,
}
use qnap_csi.Base.Int.{ℤ, pos, negsuc, IsInt64}

-- One round for each digit; `suc n` rounds are enough for `n`.
unfoldable pub digits : ℕ → ℕ → Text
digits zero n = []
digits (suc f) n =
    let rest = digits f (n / 10) in
    if ltb n 10 then (b'0' + n) ∷ [] else rest ++ (b'0' + n % 10) ∷ []

unfoldable pub itoa_nat : ℕ → Text
unfolding digits
itoa_nat n = digits (suc n) n

unfoldable pub itoa : ℤ → Text
unfolding itoa_nat
itoa (pos n) = itoa_nat n
itoa (negsuc n) = b'-' ∷ itoa_nat (suc n)

unfoldable pub is_digit : ℕ → Bool
is_digit c = leb b'0' c && leb c b'9'

-- The number that the digits spell behind `n`.
unfoldable pub scan : Text → ℕ → Option ℕ
unfolding is_digit
scan [] n = some n
scan (c ∷ s) n = let rest = scan s (n * 10 + (c - b'0')) in if is_digit c then rest else none

unfoldable pub parse_nat : Text → Option ℕ
unfolding scan
parse_nat [] = none
parse_nat (c ∷ s) = scan (c ∷ s) 0

in_range : Bool → Option ℕ → Result ℤ
in_range minus none = err (lit "invalid syntax")
in_range minus (some n) =
    if minus
    then if leb n (2 ^ 63)
      then ok (elim n [ zero ↦ pos 0 | suc m ↦ negsuc m ])
      else err (lit "value out of range")
    else if ltb n (2 ^ 63)
    then ok (pos n)
    else err (lit "value out of range")

-- An optional sign, then one digit or more, within an int64.
pub atoi : Text → Result ℤ
atoi [] = err (lit "invalid syntax")
atoi (c ∷ s) =
    if c == b'-'
    then in_range true (parse_nat s)
    else if c == b'+'
    then in_range false (parse_nat s)
    else in_range false (parse_nat (c ∷ s))

-- strconv.ParseUint(s, 10, 64): digits alone, within a uint64.
unfoldable pub parse_uint : Text → Result ℕ
unfolding parse_nat
parse_uint s = elim (parse_nat s) [
  | none ↦ err (lit "invalid syntax")
  | some n ↦ if ltb n (2 ^ 64) then ok n else err (lit "value out of range")
]

abbrev pub IsDigit : ℕ → Type 0
IsDigit c = (b'0' ≤ c) × (c ≤ b'9')

digits-IsDigit : (f n : ℕ) → All IsDigit (digits f n)
unfolding digits
digits-IsDigit zero n = tt
digits-IsDigit (suc f) n = ground (
  arith,
  digits-IsDigit f (n / 10),
  All-append IsDigit (digits f (n / 10)) ((b'0' + n % 10) ∷ []),
)

pub itoa_nat-IsDigit : (n : ℕ) → All IsDigit (itoa_nat n)
unfolding itoa_nat
itoa_nat-IsDigit n = digits-IsDigit (suc n) n

pub itoa_nat-ne-nil : (n : ℕ) → itoa_nat n ≢ []
unfolding itoa_nat
itoa_nat-ne-nil n = ground (arith, concat-ne-nil (b'0' + n % 10) (digits n (n / 10)))

scan-append : (s t : Text) (n m : ℕ) → scan s n ≡ some m → scan (s ++ t) n ≡ scan t m
unfolding scan
scan-append [] t n m h = ground arith
scan-append (c ∷ s) t n m h = ground (arith, scan-append s t (n * 10 + (c - b'0')) m)

scan-digits : (f n : ℕ) → n < f → scan (digits f n) 0 ≡ some n
unfolding scan digits
scan-digits zero n h = elim h [ ]
scan-digits (suc f) n h = ground (
  arith,
  scan-digits f (n / 10),
  scan-append (digits f (n / 10)) ((b'0' + n % 10) ∷ []) 0 (n / 10),
)

pub parse_nat-scan : (s : Text) → s ≢ [] → parse_nat s ≡ scan s 0
unfolding parse_nat
parse_nat-scan [] h = absurd (h refl)
parse_nat-scan (c ∷ s) h = refl

pub parse_nat-itoa_nat : (n : ℕ) → parse_nat (itoa_nat n) ≡ some n
unfolding itoa_nat
parse_nat-itoa_nat n = parse_nat-scan _ (itoa_nat-ne-nil n) ∙ scan-digits (suc n) n (omega arith)

-- A text that begins with a digit has no sign.
atoi_unsigned :
    (s : Text) (n : ℕ) → All IsDigit s → parse_nat s ≡ some n → n < 2 ^ 63 → atoi s ≡ ok (pos n)
unfolding atoi parse_nat in_range
atoi_unsigned [] n d h lt = ground arith
atoi_unsigned (c ∷ s) n (dc, d) h lt = ground arith

pub atoi-itoa : (z : ℤ) → IsInt64 z → atoi (itoa z) ≡ ok z
unfolding itoa
atoi-itoa (pos n) h =
    atoi_unsigned (itoa_nat n) n (itoa_nat-IsDigit n) (parse_nat-itoa_nat n) (omega arith)
atoi-itoa (negsuc n) h = unfold atoi in_range in rw (parse_nat-itoa_nat (suc n)) (ground arith)

in_range-IsInt64 : (minus : Bool) (o : Option ℕ) (z : ℤ) → in_range minus o ≡ ok z → IsInt64 z
unfolding in_range
in_range-IsInt64 true none z h = cc
in_range-IsInt64 true (some zero) z h = ground arith
in_range-IsInt64 true (some (suc n)) z h = ground arith
in_range-IsInt64 false none z h = cc
in_range-IsInt64 false (some n) z h = ground arith

-- Atoi gives values of an int64 alone.
pub atoi-IsInt64 : (s : Text) (z : ℤ) → atoi s ≡ ok z → IsInt64 z
unfolding atoi
atoi-IsInt64 [] z h = cc
atoi-IsInt64 (c ∷ s) z h = ground (
  arith,
  in_range-IsInt64 true (parse_nat s) z,
  in_range-IsInt64 false (parse_nat s) z,
  in_range-IsInt64 false (parse_nat (c ∷ s)) z,
)
