-- ===== src/Go/Decimal/Tests.antt =====
-- Runs of strconv's functions.
use qnap_csi.Base.{◌-◌, ◌^◌, ◌≡◌, refl, [], lit, ok, err}
use qnap_csi.Base.Int.{pos, negsuc}
use qnap_csi.Go.Decimal.{itoa, atoi, parse_nat, in_range}

itoa_max : itoa (pos (2 ^ 63 - 1)) ≡ lit "9223372036854775807"
unfolding itoa lit
itoa_max = refl

atoi_min : atoi (lit "-9223372036854775808") ≡ ok (negsuc (2 ^ 63 - 1))
unfolding atoi parse_nat in_range lit
atoi_min = refl

atoi_plus : atoi (lit "+7") ≡ ok (pos 7)
unfolding atoi parse_nat in_range lit
atoi_plus = refl

atoi_empty : atoi [] ≡ err (lit "invalid syntax")
unfolding atoi
atoi_empty = refl
