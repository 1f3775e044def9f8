-- ===== src/Go/Literal/Printed.antt =====
-- What itoa prints is read as the same number.
use qnap_csi.Base.{
  ℕ, zero, suc, ◌+◌, ◌-◌, ◌*◌, ◌/◌, ◌%◌, ◌^◌, ◌<◌, ◌≡◌, refl, sym, ◌∙◌, Bool, true, false,
  Bool-cases, inl, inr, some, [], ◌∷◌, ◌++◌, arith, Text, lit, text_eq, ltb, ◌==◌, All,
}
use qnap_csi.Base.Int.{ℤ, pos, negsuc, IsInt64}
use qnap_csi.Go.Decimal.{
  itoa, itoa_nat, digits, scan, is_digit, IsDigit, itoa_nat-IsDigit, itoa_nat-ne-nil,
  parse_nat-scan, parse_nat-itoa_nat,
}
use qnap_csi.Go.Literal.{
  magnitude, digit_value, digit_of, after_digit, lower, base_of, underscores_fit, underscore_ok,
  unsigned, signed, parse_int, parse_bool, member, Seen, at_start, a_digit, is_an_underscore,
  is_base_letter,
}

-- On digits the loop does as that of base 10.
magnitude-scan : (s : Text) (n : ℕ) → All IsDigit s → magnitude 10 s n ≡ scan s n
unfolding magnitude scan digit_value digit_of after_digit is_digit
magnitude-scan [] n d = refl
magnitude-scan (c ∷ s) n (h, d) = ground (arith, magnitude-scan s (n * 10 + (c - b'0')) d)

fits-digits :
    (hex : Bool) (seen : Seen) (s : Text)
    → is_an_underscore seen ≡ false
    → All IsDigit s
    → underscores_fit hex seen s ≡ true
unfolding underscores_fit is_an_underscore
fits-digits hex seen [] e d = rw e refl
fits-digits hex seen (c ∷ s) e (h, d) = ground (arith, fits-digits hex a_digit s refl d)

-- The first digit is no zero.
abbrev LeadsDecimal : Text → Type 0
LeadsDecimal [] = ⊥
LeadsDecimal (c ∷ s) = (c == b'0') ≡ false

leads-append : (s t : Text) → LeadsDecimal s → LeadsDecimal (s ++ t)
leads-append [] t h = absurd h
leads-append (c ∷ s) t h = h

digits-leads : (f n : ℕ) → n < f → 0 < n → LeadsDecimal (digits f n)
unfolding digits
digits-leads zero n h p = absurd (omega arith)
digits-leads (suc f) n h p = elim (Bool-cases (ltb n 10)) [
  | inl small ↦ rw small (ground arith)
  | inr large ↦ rw large (
      leads-append (digits f (n / 10)) ((b'0' + n % 10) ∷ [])
        (digits-leads f (n / 10) (ground arith) (ground arith)))
]

base_of-decimal : (s : Text) → LeadsDecimal s → base_of s ≡ (10, s)
unfolding base_of
base_of-decimal [] h = absurd h
base_of-decimal (a ∷ []) h = rw h refl
base_of-decimal (a ∷ b ∷ []) h = rw h refl
base_of-decimal (a ∷ b ∷ c ∷ s) h = rw h refl

ok-digits : (s : Text) → All IsDigit s → underscore_ok s ≡ true
unfolding underscore_ok is_base_letter lower underscores_fit is_an_underscore
ok-digits [] d = refl
ok-digits (a ∷ []) d = fits-digits false at_start (a ∷ []) refl d
ok-digits (a ∷ b ∷ s) (ha, (hb, d)) =
    let rest : underscores_fit false a_digit s ≡ true = fits-digits false a_digit s refl d in
    ground arith

unsigned-leads :
    (s : Text) (n : ℕ) → LeadsDecimal s → All IsDigit s → scan s 0 ≡ some n → unsigned s ≡ some n
unfolding unsigned
unsigned-leads [] n h d e = absurd h
unsigned-leads (c ∷ s) n h d e =
    rw (base_of-decimal (c ∷ s) h, ok-digits (c ∷ s) d) (magnitude-scan (c ∷ s) 0 d ∙ e)

unsigned-zero : unsigned (b'0' ∷ []) ≡ some 0
unfolding unsigned base_of underscore_ok underscores_fit magnitude is_an_underscore
unsigned-zero = refl

unsigned-itoa_nat : (n : ℕ) → unsigned (itoa_nat n) ≡ some n
unfolding itoa_nat
unsigned-itoa_nat zero = unsigned-zero
unsigned-itoa_nat (suc n) =
    unsigned-leads (itoa_nat (suc n)) (suc n)
      (digits-leads (suc (suc n)) (suc n) (omega arith) (omega arith)) (itoa_nat-IsDigit (suc n))
      (sym (parse_nat-scan (itoa_nat (suc n)) (itoa_nat-ne-nil (suc n)))
        ∙ parse_nat-itoa_nat (suc n))

-- A text that begins with a digit has no sign.
digit-unsigned : (c : ℕ) → IsDigit c → ((c == b'-') ≡ false) × ((c == b'+') ≡ false)
digit-unsigned c d = (ground arith, ground arith)

signed-small : (n : ℕ) → n < 2 ^ 63 → signed false (some n) ≡ some (pos n)
unfolding signed
signed-small n h = ground arith

parse_int-unsigned :
    (s : Text) (n : ℕ)
    → All IsDigit s
    → unsigned s ≡ some n
    → n < 2 ^ 63
    → parse_int s ≡ some (pos n)
unfolding parse_int
parse_int-unsigned [] n d h lt = absurd (empty h)
  where
    empty : unsigned [] ≡ some n → ⊥
    empty e = cc e
parse_int-unsigned (c ∷ s) n (dc, d) h lt =
    let (no_minus, no_plus) = digit-unsigned c dc in rw (no_minus, no_plus, h) (signed-small n lt)

pub parse_int-itoa : (z : ℤ) → IsInt64 z → parse_int (itoa z) ≡ some z
unfolding itoa
parse_int-itoa (pos n) h =
    parse_int-unsigned (itoa_nat n) n (itoa_nat-IsDigit n) (unsigned-itoa_nat n) (omega arith)
parse_int-itoa (negsuc n) h =
    unfold parse_int signed in rw (unsigned-itoa_nat (suc n)) (ground arith)

-- As fmt's %t.
pub bool_text : Bool → Text
bool_text true = lit "true"
bool_text false = lit "false"

pub parse_bool-bool_text : (b : Bool) → parse_bool (bool_text b) ≡ some b
unfolding parse_bool member bool_text text_eq lit
parse_bool-bool_text true = refl
parse_bool-bool_text false = refl
