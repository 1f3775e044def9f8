-- ===== src/Examples/Values.antt =====
-- Sizes, names and page tokens.
use qnap_csi.Base.{
  ℕ, ◌*◌, ◌≡◌, ◌↔◌, List, [], ◌∷◌, ◌++◌, lit, arith, list_set, ok, some, Option, All, contains,
}
use qnap_csi.Base.Int.{ℤ, pos, negsuc, eq_ℤ, IsInt64}
use qnap_csi.Go.Decimal.{itoa_nat}
use qnap_csi.Size.{CapacityRange, extract_storage}
use qnap_csi.Size.Laws.{Grants, extract_storage_iff}
use qnap_csi.Size.Format.{gi_b, format_bytes}
use qnap_csi.Size.Format.Whole.{format_bytes_whole}
use qnap_csi.Name.{clean_iscsi_name}
use qnap_csi.Name.Laws.{IsClean, clean_iscsi_name_contract}
use qnap_csi.Driver.Token.{seen_indexes_to_base64_string, base64_seen_indexes_to_map}
use qnap_csi.Driver.Token.RoundTrip.{base64_seen_indexes_to_map_round_trip}
use qnap_csi.Examples.Nas.{ints-IsFinSet}

-- From 5 to 6 GiB.
abbrev range : Option CapacityRange
range = some (record { required_bytes = pos 5368709120; limit_bytes = pos 6442450944 })

extract_storage_iff_example :
    (extract_storage range ≡ ok (pos 5368709120))
    ↔ ((n : ℕ) × (pos 5368709120 ≡ pos n) × Grants range n)
extract_storage_iff_example = extract_storage_iff range (pos 5368709120)

format_bytes_whole_example : format_bytes (pos (16 * gi_b)) ≡ itoa_nat 16 ++ lit "Gi"
format_bytes_whole_example = format_bytes_whole 16 (omega arith) (omega arith)

clean_iscsi_name_contract_example :
    IsClean (clean_iscsi_name (lit "pvc-A1"))
    × ((clean_iscsi_name (lit "pvc-A1") ≡ lit "pvc-A1") ↔ IsClean (lit "pvc-A1"))
    × (clean_iscsi_name (clean_iscsi_name (lit "pvc-A1")) ≡ clean_iscsi_name (lit "pvc-A1"))
clean_iscsi_name_contract_example = clean_iscsi_name_contract (lit "pvc-A1")

abbrev indexes : List ℤ
indexes = pos 3 ∷ pos 12 ∷ negsuc 0 ∷ []

indexes-IsInt64 : All IsInt64 indexes
indexes-IsInt64 =
    ((omega arith, omega arith), ((omega arith, omega arith), ((omega arith, omega arith), tt)))

base64_seen_indexes_to_map_round_trip_example :
    (s : List ℤ) × (base64_seen_indexes_to_map
        (list_set eq_ℤ)
        (seen_indexes_to_base64_string indexes)
      ≡ ok s)
    × ((a : ℤ) → contains eq_ℤ s a ≡ contains eq_ℤ indexes a)
base64_seen_indexes_to_map_round_trip_example =
    base64_seen_indexes_to_map_round_trip (list_set eq_ℤ) ints-IsFinSet indexes (λ e. cc)
      indexes-IsInt64
