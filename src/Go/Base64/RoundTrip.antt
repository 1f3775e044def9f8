-- ===== src/Go/Base64/RoundTrip.antt =====
-- What is encoded is decoded.
use qnap_csi.Base.{
  ℕ, ◌+◌, ◌*◌, ◌/◌, ◌%◌, ◌<◌, ◌≡◌, ◌≢◌, refl, false, is_blank, some, [], ◌∷◌, arith, Text, ◌==◌,
  All,
}
use qnap_csi.Go.Base64.{
  encode_six, decode_six, encode, decode, groups, group_one, group_two, group_three, last_group,
  without_line_ends,
}

abbrev pub IsByte : ℕ → Type 0
IsByte c = c < 256

decode_six-encode_six : (v : ℕ) → v < 64 → decode_six (encode_six v) ≡ some v
unfolding decode_six encode_six
decode_six-encode_six v h = ground arith

-- A digit of the alphabet is no padding.
encode_six_plain : (v : ℕ) → (encode_six v == b'=') ≡ false
unfolding encode_six
encode_six_plain v = ground arith

without_line_ends-digit :
    (v : ℕ) (s : Text) → without_line_ends (encode_six v ∷ s) ≡ encode_six v ∷ without_line_ends s
unfolding without_line_ends encode_six
without_line_ends-digit v s = ground arith

without_line_ends-padding : (s : Text) → without_line_ends (b'=' ∷ s) ≡ b'=' ∷ without_line_ends s
unfolding without_line_ends
without_line_ends-padding s = refl

ruleset line_laws = (without_line_ends-digit, without_line_ends-padding)

without_line_ends-encode : (s : Text) → without_line_ends (encode s) ≡ encode s
unfolding encode
without_line_ends-encode [] = unfold without_line_ends in refl
without_line_ends-encode (a ∷ []) = simp line_laws (unfold without_line_ends in refl)
without_line_ends-encode (a ∷ b ∷ []) = simp line_laws (unfold without_line_ends in refl)
without_line_ends-encode (a ∷ b ∷ c ∷ s) = simp (line_laws, without_line_ends-encode s)

groups-encode : (s : Text) → All IsByte s → groups (encode s) ≡ some s
unfolding groups encode
groups-encode [] h = refl
groups-encode (a ∷ []) (ha, h) =
    simp
      (
        decode_six-encode_six (a / 4) (omega arith),
        decode_six-encode_six (a % 4 * 16) (omega arith),
      )
      (unfold group_one last_group in ground arith)
groups-encode (a ∷ b ∷ []) (ha, (hb, h)) = simp encode_six_plain (
    simp
      (
        decode_six-encode_six (a / 4) (omega arith),
        decode_six-encode_six (a % 4 * 16 + b / 16) (omega arith),
        decode_six-encode_six (b % 16 * 4) (omega arith),
      )
      (unfold group_two last_group in ground arith))
groups-encode (a ∷ b ∷ c ∷ s) (ha, (hb, (hc, h))) =
    simp (encode_six_plain, groups-encode s h)
      (simp
        (
          decode_six-encode_six (a / 4) (omega arith),
          decode_six-encode_six (a % 4 * 16 + b / 16) (omega arith),
          decode_six-encode_six (b % 16 * 4 + c / 64) (omega arith),
          decode_six-encode_six (c % 64) (omega arith),
        )
        (unfold group_three in ground arith))

-- Every text of bytes is read back from its encoding.
pub decode-encode : (s : Text) → All IsByte s → decode (encode s) ≡ some s
unfolding decode
decode-encode s h = rw (without_line_ends-encode s) (groups-encode s h)

pub is_blank-encode : (s : Text) → s ≢ [] → is_blank (encode s) ≡ false
unfolding encode is_blank
is_blank-encode [] h = absurd (h refl)
is_blank-encode (a ∷ []) h = refl
is_blank-encode (a ∷ b ∷ []) h = refl
is_blank-encode (a ∷ b ∷ c ∷ s) h = refl
