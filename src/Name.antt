-- ===== src/Name.antt =====
-- cleanISCSIName of driver/utils.go: strings.ToLower, then all but [a-zA-Z0-9] removed.
-- Beside A to Z two letters come down to ASCII ones: U+0130 (bytes c4 b0) to i and U+212A
-- (bytes e2 84 aa) to k. All other bytes beyond ASCII end in letters that are removed.
pub mod Laws
use qnap_csi.Base.{
  ℕ, ◌+◌, Bool, false, ◌&&◌, ◌||◌, Option, none, some, [], ◌∷◌, Text, leb, ◌==◌, if◌then◌else◌,
}

unfoldable pub is_upper : ℕ → Bool
is_upper c = leb b'A' c && leb c b'Z'

unfoldable pub is_kept : ℕ → Bool
is_kept c = leb b'a' c && leb c b'z' || leb b'0' c && leb c b'9'

starts_with : Text → ℕ → Bool
starts_with [] c = false
starts_with (a ∷ s) c = a == c

tail_starts_with : Text → ℕ → Bool
unfolding starts_with
tail_starts_with [] c = false
tail_starts_with (a ∷ s) c = starts_with s c

-- What the letter that begins with the byte `c` leaves, with `s` the bytes behind it.
unfoldable pub kept : ℕ → Text → Option ℕ
unfolding is_upper is_kept starts_with tail_starts_with
kept c s =
    if is_upper c
    then some (c + 32)
    else if is_kept c
    then some c
    else if c == 0xc4 && starts_with s 0xb0
    then some b'i'
    else if c == 0xe2 && starts_with s 0x84 && tail_starts_with s 0xaa
    then some b'k'
    else none

unfoldable pub clean_iscsi_name : Text → Text
unfolding kept
clean_iscsi_name [] = []
clean_iscsi_name (c ∷ s) =
    let rest = clean_iscsi_name s in elim (kept c s) [ none ↦ rest | some k ↦ k ∷ rest ]
