-- ===== src/Size.antt =====
-- extractStorage of driver/utils.go: the capacity range of a request, and the size of the volume.
pub mod Format
pub mod Laws
use qnap_csi.Base.{
  ℕ, ◌*◌, ◌%◌, ◌^◌, Bool, not, ◌&&◌, Option, none, some, ◌++◌, Text, lit, Result, ok, err, ltb,
  ◌==◌, if◌then◌else◌,
}
use qnap_csi.Base.Int.{ℤ, pos, pos_part, ltb_ℤ, eq_ℤ}
use qnap_csi.Go.Decimal.{itoa}
use Format.{gi_b, format_bytes}

abbrev pub minimum_volume_size_in_bytes : ℕ
minimum_volume_size_in_bytes = 1 * gi_b

abbrev pub maximum_volume_size_in_bytes : ℕ
maximum_volume_size_in_bytes = 128 * gi_b

abbrev pub default_volume_size_in_bytes : ℕ
default_volume_size_in_bytes = 16 * gi_b

-- csi.CapacityRange: two int64 fields.
pub record CapacityRange : Type 0 where
  pub required_bytes : ℤ
  pub limit_bytes : ℤ

less_than_minimum : Text → ℤ → Text
less_than_minimum what n =
    what
    ++ lit " ("
    ++ format_bytes n
    ++ lit ") can not be less than minimum supported volume size ("
    ++ format_bytes (pos minimum_volume_size_in_bytes)
    ++ lit ")"

exceeds_maximum : Text → ℤ → Text
exceeds_maximum what n =
    what
    ++ lit " ("
    ++ format_bytes n
    ++ lit ") can not exceed maximum supported volume size ("
    ++ format_bytes (pos maximum_volume_size_in_bytes)
    ++ lit ")"

-- %v of an int64 is its decimal form.
not_multiple : Text → ℤ → Text
not_multiple what n = what ++ lit " (" ++ itoa n ++ lit ") must be a multiple of 1GB"

limit_below_required : ℤ → ℤ → Text
limit_below_required limit required =
    lit "limit ("
    ++ format_bytes limit
    ++ lit ") can not be less than required ("
    ++ format_bytes required
    ++ lit ") size"

-- The remainder is taken of positive values only.
in_range : ℤ → ℤ → Bool → Bool → Result ℤ
in_range required limit required_set limit_set =
    if not required_set && not limit_set
    then ok (pos default_volume_size_in_bytes)
    else if required_set && limit_set && ltb_ℤ limit required
    then err (limit_below_required limit required)
    else if required_set && not limit_set && ltb_ℤ required (pos minimum_volume_size_in_bytes)
    then err (less_than_minimum (lit "required") required)
    else if limit_set && ltb_ℤ limit (pos minimum_volume_size_in_bytes)
    then err (less_than_minimum (lit "limit") limit)
    else if limit_set && not (pos_part limit % (1 * gi_b) == 0)
    then err (not_multiple (lit "limit") limit)
    else if required_set && ltb_ℤ (pos maximum_volume_size_in_bytes) required
    then err (exceeds_maximum (lit "required") required)
    else if required_set && not (pos_part required % (1 * gi_b) == 0)
    then err (not_multiple (lit "required") required)
    else if not required_set && limit_set && ltb_ℤ (pos maximum_volume_size_in_bytes) limit
    then err (exceeds_maximum (lit "limit") limit)
    else if required_set && limit_set && eq_ℤ required limit
    then ok required
    else if required_set
    then ok required
    else if limit_set
    then ok limit
    else ok (pos default_volume_size_in_bytes)

unfoldable pub extract_storage : Option CapacityRange → Result ℤ
unfolding in_range less_than_minimum exceeds_maximum not_multiple limit_below_required
extract_storage none = ok (pos default_volume_size_in_bytes)
extract_storage (some r) =
    in_range r.required_bytes r.limit_bytes (ltb_ℤ (pos 0) r.required_bytes)
      (ltb_ℤ (pos 0) r.limit_bytes)
