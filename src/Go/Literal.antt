-- ===== src/Go/Literal.antt =====
-- strconv.ParseInt with the base 0, which reads the literals of Go, and strconv.ParseBool.
pub mod Printed
use qnap_csi.Base.{
  ℕ, zero, suc, ◌+◌, ◌-◌, ◌*◌, ◌^◌, Bool, true, false, not, ◌&&◌, ◌||◌, Option, none, some, List,
  [], ◌∷◌, Text, lit, text_eq, leb, ltb, ◌==◌, if◌then◌else◌,
}
use qnap_csi.Base.Int.{ℤ, pos, negsuc}

-- A letter to lower case.
lower : ℕ → ℕ
lower c = if leb b'A' c && leb c b'Z' then c + 32 else c

-- The value of a digit or a letter, in any base.
digit_value : ℕ → Option ℕ
unfolding lower
digit_value c =
    if leb b'0' c && leb c b'9'
    then some (c - b'0')
    else if leb b'a' (lower c) && leb (lower c) b'z'
    then some (lower c - b'a' + 10)
    else none

digit_of : ℕ → Option ℕ → Option ℕ
digit_of base none = none
digit_of base (some d) = if ltb d base then some d else none

after_digit : Option ℕ → (ℕ → Option ℕ) → Option ℕ
after_digit none rest = none
after_digit (some d) rest = rest d

-- The number that the digits of a base spell behind `n`, past underscores.
magnitude : ℕ → Text → ℕ → Option ℕ
unfolding digit_value digit_of after_digit
magnitude base [] n = some n
magnitude base (c ∷ s) n =
    let skipped = magnitude base s n in
    let added : ℕ → Option ℕ = λ d. magnitude base s (n * base + d) in
    if c == b'_' then skipped else after_digit (digit_of base (digit_value c)) added

-- The base that a prefix tells, and the digits.
base_of : Text → ℕ × Text
unfolding lower
base_of [] = (10, [])
base_of (a ∷ []) = if a == b'0' then (8, []) else (10, a ∷ [])
base_of (a ∷ b ∷ []) = if a == b'0' then (8, b ∷ []) else (10, a ∷ b ∷ [])
base_of (a ∷ b ∷ c ∷ s) =
    if a == b'0'
    then if lower b == b'b'
      then (2, c ∷ s)
      else if lower b == b'o'
      then (8, c ∷ s)
      else if lower b == b'x'
      then (16, c ∷ s)
      else (8, b ∷ c ∷ s)
    else (10, a ∷ b ∷ c ∷ s)

-- What stands in front of a byte of a number: nothing yet, a digit or the prefix, an underscore, or
-- another byte.
data Seen : Type 0 where
  at_start a_digit an_underscore another : Seen

is_a_digit : Seen → Bool
is_a_digit a_digit = true
is_a_digit _ = false

is_an_underscore : Seen → Bool
is_an_underscore an_underscore = true
is_an_underscore _ = false

-- Underscores stand between digits, or the prefix and a digit.
underscores_fit : Bool → Seen → Text → Bool
unfolding lower is_a_digit is_an_underscore
underscores_fit hex seen [] = not (is_an_underscore seen)
underscores_fit hex seen (c ∷ s) =
    let digit = underscores_fit hex a_digit s in
    let underscore = underscores_fit hex an_underscore s in
    let other = underscores_fit hex another s in
    if (leb b'0' c && leb c b'9') || (hex && (leb b'a' (lower c) && leb (lower c) b'f'))
    then digit
    else if c == b'_'
    then if is_a_digit seen then underscore else false
    else if is_an_underscore seen
    then false
    else other

is_base_letter : ℕ → Bool
is_base_letter c = c == b'b' || (c == b'o' || c == b'x')

-- underscoreOK, behind the sign.
underscore_ok : Text → Bool
unfolding underscores_fit is_base_letter lower
underscore_ok (a ∷ b ∷ s) =
    if (a == b'0') && is_base_letter (lower b)
    then underscores_fit (lower b == b'x') a_digit s
    else underscores_fit false at_start (a ∷ b ∷ s)
underscore_ok s = underscores_fit false at_start s

-- strconv.ParseUint(s, 0, 64) but for its range.
unsigned : Text → Option ℕ
unfolding magnitude base_of underscore_ok
unsigned [] = none
unsigned (c ∷ s) =
    let (base, digits) = base_of (c ∷ s) in
    if underscore_ok (c ∷ s) then magnitude base digits 0 else none

signed : Bool → Option ℕ → Option ℤ
signed minus none = none
signed minus (some n) =
    if minus
    then if leb n (2 ^ 63) then some (elim n [ zero ↦ pos 0 | suc m ↦ negsuc m ]) else none
    else if ltb n (2 ^ 63)
    then some (pos n)
    else none

-- strconv.ParseInt(s, 0, 64)
pub parse_int : Text → Option ℤ
unfolding signed unsigned
parse_int [] = none
parse_int (c ∷ s) =
    if c == b'-'
    then signed true (unsigned s)
    else if c == b'+'
    then signed false (unsigned s)
    else signed false (unsigned (c ∷ s))

member : Text → List Text → Bool
member s [] = false
member s (t ∷ ts) = text_eq s t || member s ts

-- strconv.ParseBool
pub parse_bool : Text → Option Bool
unfolding member
parse_bool s =
    if member s (lit "1" ∷ lit "t" ∷ lit "T" ∷ lit "true" ∷ lit "TRUE" ∷ lit "True" ∷ [])
    then some true
    else if member s (lit "0" ∷ lit "f" ∷ lit "F" ∷ lit "false" ∷ lit "FALSE" ∷ lit "False" ∷ [])
    then some false
    else none
