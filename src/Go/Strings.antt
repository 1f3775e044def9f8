-- ===== src/Go/Strings.antt =====
-- strings.Split, Join, TrimRight, TrimSuffix and Contains with a separator of one byte.
pub mod Laws
use qnap_csi.Base.{ℕ, Bool, false, ◌||◌, List, [], ◌∷◌, ◌++◌, Text, text_eq, ◌==◌, if◌then◌else◌}

-- The current part is the head of the result.
abbrev extend : ℕ → List Text → List Text
extend c [] = (c ∷ []) ∷ []
extend c (p ∷ ps) = (c ∷ p) ∷ ps

-- strings.Split; an empty text has one empty part.
unfoldable pub split : Text → ℕ → List Text
split [] sep = [] ∷ []
split (c ∷ s) sep = let rest = split s sep in if c == sep then [] ∷ rest else extend c rest

-- strings.TrimRight with a cutset of one byte.
unfoldable pub trim_right : Text → ℕ → Text
trim_right [] c = []
trim_right (a ∷ s) c = elim (trim_right s c) [
  | [] ↦ if a == c then [] else a ∷ []
  | b ∷ t ↦ a ∷ b ∷ t
]

unfoldable pub trim_left : Text → ℕ → Text
trim_left [] c = []
trim_left (a ∷ s) c = let rest = trim_left s c in if a == c then rest else a ∷ s

-- strings.TrimSuffix
unfoldable pub trim_suffix : Text → Text → Text
unfolding text_eq
trim_suffix [] t = []
trim_suffix (a ∷ s) t = let rest = trim_suffix s t in if text_eq (a ∷ s) t then [] else a ∷ rest

unfoldable pub contains_byte : Text → ℕ → Bool
contains_byte [] c = false
contains_byte (a ∷ s) c = a == c || contains_byte s c

-- strings.Join with a separator.
unfoldable pub join : List Text → Text → Text
join [] sep = []
join (p ∷ []) sep = p
join (p ∷ q ∷ ps) sep = p ++ (sep ++ join (q ∷ ps) sep)
