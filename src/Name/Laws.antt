-- ===== src/Name/Laws.antt =====
-- The names that cleaning leaves.
use qnap_csi.Base.{◌≡◌, refl, ◌↔◌, true, [], ◌∷◌, arith, Text, All}
use qnap_csi.Name.{is_kept, clean_iscsi_name}

-- A lower-case letter or a digit.
abbrev pub IsClean : Text → Type 0
IsClean = All (λ c. is_kept c ≡ true)

clean_iscsi_name-IsClean : (s : Text) → IsClean (clean_iscsi_name s)
unfolding clean_iscsi_name
clean_iscsi_name-IsClean [] = tt
clean_iscsi_name-IsClean (c ∷ s) = ground (arith, clean_iscsi_name-IsClean s)

clean_fixed : (s : Text) → IsClean s → clean_iscsi_name s ≡ s
unfolding clean_iscsi_name
clean_fixed [] h = refl
clean_fixed (c ∷ s) (hc, h) = ground (arith, clean_fixed s h)

-- The cleaned name has only lower-case ASCII letters and digits; a name is left as it is exactly
-- when it has only those; and cleaning again changes nothing.
pub clean_iscsi_name_contract :
    (s : Text)
    → IsClean (clean_iscsi_name s)
      × ((clean_iscsi_name s ≡ s) ↔ IsClean s)
      × (clean_iscsi_name (clean_iscsi_name s) ≡ clean_iscsi_name s)
clean_iscsi_name_contract s = (
  clean_iscsi_name-IsClean s,
  (λ e. rw e at (clean_iscsi_name-IsClean s), clean_fixed s),
  clean_fixed (clean_iscsi_name s) (clean_iscsi_name-IsClean s),
)
