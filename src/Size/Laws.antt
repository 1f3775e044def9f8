-- ===== src/Size/Laws.antt =====
-- What extractStorage grants: the whole contract, both ways.
use qnap_csi.Base.{ℕ, zero, suc, ◌%◌, ◌≤◌, ◌≡◌, ◌↔◌, Option, none, some, arith, ok, refl}
use qnap_csi.Base.Int.{ℤ, pos, negsuc}
use qnap_csi.Size.{
  CapacityRange, extract_storage, maximum_volume_size_in_bytes, default_volume_size_in_bytes,
}
use qnap_csi.Size.Format.{gi_b}

-- A bound that is not positive is no bound.
abbrev pub bound : ℤ → Option ℕ
bound (pos zero) = none
bound (pos (suc n)) = some (suc n)
bound (negsuc n) = none

-- A whole number of GiB, from the least volume to the greatest.
abbrev pub IsVolumeSize : ℕ → Type 0
IsVolumeSize n = (n % gi_b ≡ 0) × (gi_b ≤ n) × (n ≤ maximum_volume_size_in_bytes)

-- The size that two bounds stand for.
abbrev pub Fits : Option ℕ → Option ℕ → ℕ → Type 0
Fits none none n = n ≡ default_volume_size_in_bytes
Fits (some r) none n = (n ≡ r) × IsVolumeSize n
Fits none (some l) n = (n ≡ l) × IsVolumeSize n
Fits (some r) (some l) n = (n ≡ r) × IsVolumeSize n × (l % gi_b ≡ 0) × (n ≤ l)

abbrev pub Grants : Option CapacityRange → ℕ → Type 0
Grants none n = n ≡ default_volume_size_in_bytes
Grants (some r) n = Fits (bound r.required_bytes) (bound r.limit_bytes) n

sound :
    (a b z : ℤ)
    → extract_storage (some (record { required_bytes = a; limit_bytes = b })) ≡ ok z
    → (n : ℕ) × (z ≡ pos n) × Fits (bound a) (bound b) n
unfolding extract_storage
sound (pos zero) (pos zero) z h = (default_volume_size_in_bytes, ground arith, ground arith)
sound (pos zero) (pos (suc l)) z h = (suc l, ground arith, ground arith)
sound (pos zero) (negsuc l) z h = (default_volume_size_in_bytes, ground arith, ground arith)
sound (pos (suc r)) (pos zero) z h = (suc r, ground arith, ground arith)
sound (pos (suc r)) (pos (suc l)) z h = (suc r, ground arith, ground arith)
sound (pos (suc r)) (negsuc l) z h = (suc r, ground arith, ground arith)
sound (negsuc r) (pos zero) z h = (default_volume_size_in_bytes, ground arith, ground arith)
sound (negsuc r) (pos (suc l)) z h = (suc l, ground arith, ground arith)
sound (negsuc r) (negsuc l) z h = (default_volume_size_in_bytes, ground arith, ground arith)

complete :
    (a b : ℤ) (n : ℕ)
    → Fits (bound a) (bound b) n
    → extract_storage (some (record { required_bytes = a; limit_bytes = b })) ≡ ok (pos n)
unfolding extract_storage
complete (pos zero) (pos zero) n h = ground arith
complete (pos zero) (pos (suc l)) n h = ground arith
complete (pos zero) (negsuc l) n h = ground arith
complete (pos (suc r)) (pos zero) n h = ground arith
complete (pos (suc r)) (pos (suc l)) n h = ground arith
complete (pos (suc r)) (negsuc l) n h = ground arith
complete (negsuc r) (pos zero) n h = ground arith
complete (negsuc r) (pos (suc l)) n h = ground arith
complete (negsuc r) (negsuc l) n h = ground arith

-- extractStorage accepts a capacity range with the size z exactly when z is the size the range
-- stands for: the default of 16 GiB where neither bound is positive; otherwise the required
-- bytes if they are positive and else the limit, a whole number of GiB between 1 and 128 GiB,
-- where a positive limit beside a positive requirement is a whole number of GiB no smaller.
pub extract_storage_iff :
    (range : Option CapacityRange) (z : ℤ)
    → (extract_storage range ≡ ok z) ↔ ((n : ℕ) × (z ≡ pos n) × Grants range n)
extract_storage_iff none z =
    unfold extract_storage in
    (λ h. (default_volume_size_in_bytes, ground arith, refl), λ (n, e, g). ground arith)
extract_storage_iff (some r) z = (
  sound r.required_bytes r.limit_bytes z,
  λ (n, e, g). rw e (complete r.required_bytes r.limit_bytes n g),
)

Fits-IsVolumeSize : (a b : Option ℕ) (n : ℕ) → Fits a b n → IsVolumeSize n
Fits-IsVolumeSize none none n e = omega arith
Fits-IsVolumeSize (some r) none n (e, h) = h
Fits-IsVolumeSize none (some l) n (e, h) = h
Fits-IsVolumeSize (some r) (some l) n (e, h, _, _) = h

-- Whatever is granted is a whole number of GiB within the limits.
pub Grants-IsVolumeSize : (range : Option CapacityRange) (n : ℕ) → Grants range n → IsVolumeSize n
Grants-IsVolumeSize none n e = omega arith
Grants-IsVolumeSize (some r) n h =
    Fits-IsVolumeSize (bound r.required_bytes) (bound r.limit_bytes) n h
