-- ===== src/Go/Strings/Laws.antt =====
-- Splitting and trimming at a separator.
use qnap_csi.Base.{ℕ, ◌≡◌, ◌≢◌, refl, [], ◌∷◌, ◌++◌, arith, Text, All}
use qnap_csi.Go.Strings.{split, trim_right}

abbrev pub Lacks : ℕ → Text → Type 0
Lacks sep = All (λ c. c ≢ sep)

pub split_lacking : (s : Text) (sep : ℕ) → Lacks sep s → split s sep ≡ s ∷ []
unfolding split
split_lacking [] sep h = refl
split_lacking (c ∷ s) sep (hc, h) = ground (arith, split_lacking s sep h)

pub split-append :
    (s t : Text) (sep : ℕ) → Lacks sep s → split (s ++ (sep ∷ t)) sep ≡ s ∷ split t sep
unfolding split
split-append [] t sep h = ground arith
split-append (c ∷ s) t sep (hc, h) = ground (arith, split-append s t sep h)

pub trim_right_lacking : (s : Text) (c : ℕ) → Lacks c s → trim_right s c ≡ s
unfolding trim_right
trim_right_lacking [] c h = refl
trim_right_lacking (a ∷ s) c (ha, h) = ground (arith, trim_right_lacking s c h)

pub trim_right-snoc : (s : Text) (c : ℕ) → trim_right (s ++ c ∷ []) c ≡ trim_right s c
unfolding trim_right
trim_right-snoc [] c = ground arith
trim_right-snoc (a ∷ s) c = ground (arith, trim_right-snoc s c)

append-ne-nil : (s t : Text) → t ≢ [] → s ++ t ≢ []
append-ne-nil [] t h = h
append-ne-nil (a ∷ s) t h = λ e. cc

-- What is left of the end stops the trimming.
pub trim_right-append :
    (s t : Text) (c : ℕ) → trim_right t c ≢ [] → trim_right (s ++ t) c ≡ s ++ trim_right t c
unfolding trim_right
trim_right-append [] t c h = refl
trim_right-append (a ∷ s) t c h =
    ground (arith, trim_right-append s t c h, append-ne-nil s (trim_right t c) h)
