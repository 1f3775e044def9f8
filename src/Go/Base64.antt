-- ===== src/Go/Base64.antt =====
-- base64.StdEncoding.
pub mod RoundTrip
use qnap_csi.Base.{
  ℕ, ◌+◌, ◌-◌, ◌*◌, ◌/◌, ◌%◌, ◌&&◌, ◌||◌, Option, none, some, [], ◌∷◌, Text, ltb, leb, ◌==◌,
  if◌then◌else◌,
}

encode_six : ℕ → ℕ
encode_six v =
    if ltb v 26
    then b'A' + v
    else if ltb v 52
    then b'a' + (v - 26)
    else if ltb v 62
    then b'0' + (v - 52)
    else if v == 62
    then b'+'
    else b'/'

decode_six : ℕ → Option ℕ
decode_six c =
    if leb b'A' c && leb c b'Z'
    then some (c - b'A')
    else if leb b'a' c && leb c b'z'
    then some (c - b'a' + 26)
    else if leb b'0' c && leb c b'9'
    then some (c - b'0' + 52)
    else if c == b'+'
    then some 62
    else if c == b'/'
    then some 63
    else none

pub encode : Text → Text
encode [] = []
encode (a ∷ []) = encode_six (a / 4) ∷ encode_six (a % 4 * 16) ∷ b'=' ∷ b'=' ∷ []
encode (a ∷ b ∷ []) =
    encode_six (a / 4) ∷ encode_six (a % 4 * 16 + b / 16) ∷ encode_six (b % 16 * 4) ∷ b'=' ∷ []
encode (a ∷ b ∷ c ∷ s) =
    encode_six (a / 4)
    ∷ encode_six (a % 4 * 16 + b / 16)
    ∷ encode_six (b % 16 * 4 + c / 64)
    ∷ encode_six (c % 64)
    ∷ encode s

-- The bytes of one group of four, of which the last two may be padding.
group_one : Option ℕ → Option ℕ → Option Text
group_one (some x) (some y) = some ((x * 4 + y / 16) ∷ [])
group_one _ _ = none

group_two : Option ℕ → Option ℕ → Option ℕ → Option Text
group_two (some x) (some y) (some z) = some ((x * 4 + y / 16) ∷ (y % 16 * 16 + z / 4) ∷ [])
group_two _ _ _ = none

group_three : Option ℕ → Option ℕ → Option ℕ → Option ℕ → Option Text → Option Text
group_three (some x) (some y) (some z) (some w) (some rest) =
    some ((x * 4 + y / 16) ∷ (y % 16 * 16 + z / 4) ∷ (z % 4 * 64 + w) ∷ rest)
group_three _ _ _ _ _ = none

-- Padding is for the last group alone.
last_group : Text → Option Text → Option Text
last_group [] o = o
last_group (_ ∷ _) o = none

groups : Text → Option Text
groups [] = some []
groups (a ∷ b ∷ c ∷ d ∷ s) =
    let rest = groups s in
    if d == b'='
    then last_group s (
        if c == b'='
        then group_one (decode_six a) (decode_six b)
        else group_two (decode_six a) (decode_six b) (decode_six c))
    else group_three (decode_six a) (decode_six b) (decode_six c) (decode_six d) rest
groups (_ ∷ _) = none

-- Line ends are skipped wherever they stand.
without_line_ends : Text → Text
without_line_ends [] = []
without_line_ends (c ∷ s) =
    let rest = without_line_ends s in if c == 10 || c == 13 then rest else c ∷ rest

pub decode : Text → Option Text
decode s = groups (without_line_ends s)
