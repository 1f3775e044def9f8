-- ===== src/Size/Format.antt =====
-- formatBytes of driver/utils.go, and the size units of driver/controller.go.
pub mod Whole
mod Tests
use qnap_csi.Base.{
  ℕ, zero, suc, ◌+◌, ◌*◌, ◌/◌, ◌%◌, ◌^◌, [], ◌∷◌, ◌++◌, Text, lit, ltb, leb, ◌==◌, if◌then◌else◌,
}
use qnap_csi.Base.Int.{ℤ, pos, negsuc}
use qnap_csi.Go.Decimal.{itoa_nat}
use qnap_csi.Go.Strings.{trim_suffix}

abbrev pub ki_b : ℕ
ki_b = 2 ^ 10

abbrev pub mi_b : ℕ
mi_b = 2 ^ 20

abbrev pub gi_b : ℕ
gi_b = 2 ^ 30

abbrev pub ti_b : ℕ
ti_b = 2 ^ 40

-- n / d to the nearest whole number, a tie to the even one.
round_even : ℕ → ℕ → ℕ
round_even n d =
    let q = n / d in
    let r = n % d in if ltb (2 * r) d then q else if ltb d (2 * r) then q + 1 else q + q % 2

-- The spacing of the float64 values about `n`, which has 53 bits of precision.
spacing : ℕ → ℕ → ℕ
spacing zero n = 1
spacing (suc f) n = let rest = spacing f (n / 2) in if ltb n (2 ^ 53) then 1 else 2 * rest

-- float64(n); an int64 has at most 11 bits more than a float64.
float64 : ℕ → ℕ
unfolding round_even spacing
float64 n = let d = spacing 11 n in round_even n d * d

-- strconv.FormatFloat(n / unit, 'f', 1, 64). The division by a power of two is exact.
format_tenths : ℕ → ℕ → Text
format_tenths n unit =
    let tenths = round_even (10 * n) unit in
    itoa_nat (tenths / 10) ++ (b'.' ∷ itoa_nat (tenths % 10))

scaled : ℕ → ℕ → Text → Text
scaled n unit suffix = trim_suffix (format_tenths (float64 n) unit) (lit ".0") ++ suffix

pub format_bytes : ℤ → Text
format_bytes (pos n) =
    if leb ti_b n
    then scaled n ti_b (lit "Ti")
    else if leb gi_b n
    then scaled n gi_b (lit "Gi")
    else if leb mi_b n
    then scaled n mi_b (lit "Mi")
    else if leb ki_b n
    then scaled n ki_b (lit "Ki")
    else if n == 0
    then lit "0"
    else scaled n 1 []
format_bytes (negsuc n) = b'-' ∷ scaled (suc n) 1 []
