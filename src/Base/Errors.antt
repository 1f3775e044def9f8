-- ===== src/Base/Errors.antt =====
-- A Go pair `(value, error)`: a value, or an error with its text.
use qnap_csi.Base.Bytes.{Text}

pub data Result {ℓ} (A : Type ℓ) : Type ℓ where
  ok : A → Result A
  err : Text → Result A

-- What holds of the value, or else of the error.
abbrev pub Yields : {A : Type 0} → (A → Type 0) → (Text → Type 0) → Result A → Type 0
Yields P Q (ok a) = P a
Yields P Q (err e) = Q e
