-- ===== src/Size/Format/Tests.antt =====
-- Runs of formatBytes.
use qnap_csi.Base.{◌-◌, ◌*◌, ◌^◌, ◌≡◌, refl, lit}
use qnap_csi.Base.Int.{pos}
use qnap_csi.Go.Decimal.{itoa_nat}
use qnap_csi.Go.Strings.{trim_suffix}
use qnap_csi.Size.Format.{gi_b, round_even, float64, format_tenths, scaled, format_bytes}

format_bytes_gib : format_bytes (pos (20 * gi_b)) ≡ lit "20Gi"
unfolding format_bytes scaled float64 format_tenths round_even trim_suffix itoa_nat lit
format_bytes_gib = refl

format_bytes_tenths : format_bytes (pos 1536) ≡ lit "1.5Ki"
unfolding format_bytes scaled float64 format_tenths round_even trim_suffix itoa_nat lit
format_bytes_tenths = refl

format_bytes_max : format_bytes (pos (2 ^ 63 - 1)) ≡ lit "8388608Ti"
unfolding format_bytes scaled float64 format_tenths round_even trim_suffix itoa_nat lit
format_bytes_max = refl
