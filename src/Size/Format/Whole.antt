-- ===== src/Size/Format/Whole.antt =====
-- The text of a whole number of GiB.
use qnap_csi.Base.{ℕ, ◌*◌, ◌/◌, ◌%◌, ◌≤◌, ◌<◌, ◌≡◌, refl, [], ◌∷◌, ◌++◌, arith, Text, lit, All}
use qnap_csi.Base.Int.{pos}
use qnap_csi.Go.Decimal.{itoa_nat, itoa_nat-IsDigit, IsDigit}
use qnap_csi.Go.Strings.{trim_suffix}
use qnap_csi.Size.Format.{gi_b, round_even, float64, format_tenths, scaled, format_bytes}

trim_suffix-digits : (s : Text) → All IsDigit s → trim_suffix (s ++ b'.' ∷ b'0' ∷ []) (lit ".0") ≡ s
unfolding trim_suffix lit
trim_suffix-digits [] h = refl
trim_suffix-digits (c ∷ s) (hc, h) = ground (arith, trim_suffix-digits s h)

float64_small : (k : ℕ) → k < 1024 → float64 (k * gi_b) ≡ k * gi_b
unfolding float64
float64_small k h = ground arith

round_even_tenths : (k : ℕ) → round_even (10 * (k * gi_b)) gi_b ≡ 10 * k
unfolding round_even
round_even_tenths k = ground arith

itoa_nat_zero : itoa_nat 0 ≡ b'0' ∷ []
unfolding itoa_nat
itoa_nat_zero = refl

format_tenths_whole : (k : ℕ) → format_tenths (k * gi_b) gi_b ≡ itoa_nat k ++ b'.' ∷ b'0' ∷ []
unfolding format_tenths
format_tenths_whole k =
    let t : 10 * k / 10 ≡ k = omega arith in
    let z : 10 * k % 10 ≡ 0 = omega arith in rw (round_even_tenths, t, z, itoa_nat_zero)

-- Every whole number of GiB below 1 TiB is printed as its decimal number and the unit Gi.
pub format_bytes_whole :
    (k : ℕ) → 1 ≤ k → k < 1024 → format_bytes (pos (k * gi_b)) ≡ itoa_nat k ++ lit "Gi"
unfolding format_bytes scaled
format_bytes_whole k h lt = ground (
  arith,
  float64_small k lt,
  format_tenths_whole k,
  trim_suffix-digits (itoa_nat k) (itoa_nat-IsDigit k),
)
