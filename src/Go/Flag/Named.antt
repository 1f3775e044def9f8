-- ===== src/Go/Flag/Named.antt =====
-- Arguments of the form -name=value.
use qnap_csi.Base.{
  ◌≡◌, refl, ◌∙◌, Bool, true, false, Option, none, some, List, [], ◌∷◌, ◌++◌, Text, not, ◌&&◌,
  arith, ◌==◌,
}
use qnap_csi.Base.Int.{ℤ}
use qnap_csi.Go.Literal.{parse_int, parse_bool}
use qnap_csi.Go.Flag.{
  Setter, text_flag, bool_flag, int_flag, named, cut, prefixed, name_syntax, syntax, alone,
  or_wrong, valued, assign, look_up, take_one, Parsed, after_one, parse,
}

abbrev pub lacks_equals_sign : Text → Bool
lacks_equals_sign [] = true
lacks_equals_sign (c ∷ s) = not (c == b'=') && lacks_equals_sign s

-- No byte of the name is an equals sign, and the first is no minus.
abbrev pub is_name : Text → Bool
is_name [] = false
is_name (c ∷ s) = not (c == b'-') && lacks_equals_sign (c ∷ s)

abbrev pub IsName : Text → Type 0
IsName name = is_name name ≡ true

-- The argument that gives a flag a value.
abbrev pub with_value : Text → Text → Text
with_value name value = b'-' ∷ (name ++ b'=' ∷ value)

cut-name :
    (name value : Text)
    → lacks_equals_sign name ≡ true
    → cut (name ++ b'=' ∷ value) ≡ (name, some value)
unfolding cut prefixed
cut-name [] value h = refl
cut-name (c ∷ s) value h =
    let (hc, hs) : ((c == b'=') ≡ false) × (lacks_equals_sign s ≡ true) =
      (ground arith, ground arith) in
    rw (hc, cut-name s value hs) refl

syntax-with_value :
    (name value : Text) → IsName name → syntax (with_value name value) ≡ named name (some value)
unfolding syntax name_syntax cut prefixed
syntax-with_value [] value h = cc h
syntax-with_value (c ∷ s) value h =
    let (no_minus, hc) : ((c == b'-') ≡ false) × ((c == b'=') ≡ false) =
      (ground arith, ground arith) in
    let hs : lacks_equals_sign s ≡ true = ground arith in
    rw (no_minus, hc, cut-name s value hs) refl

module _ {F : Type 0} (formal : Text → Option (Setter F)) where
  parse-alone :
      (s : Text) (args : List Text) (f g : F)
      → ((next : Option Text) → take_one formal s next f ≡ alone g)
      → parse formal (s ∷ args) f ≡ parse formal args g
  unfolding parse after_one
  parse-alone s [] f g h = rw (h none) refl
  parse-alone s (v ∷ args) f g h = rw (h (some v)) refl

  take_one-looks_up :
      (s name : Text) (value next : Option Text) (f : F)
      → syntax s ≡ named name value
      → take_one formal s next f ≡ look_up formal name (formal name) value next f
  unfolding take_one
  take_one-looks_up s name value next f e = rw (e, take_one) refl

  look_up-valued :
      (name value : Text) (set : Setter F) (next : Option Text) (f : F)
      → look_up formal name (some set) (some value) next f ≡ valued formal set value alone f
  unfolding look_up assign
  look_up-valued name value set next f = refl

  -- The flag is set, and takes nothing of the arguments behind.
  parse-named :
      (name value : Text) (set : Setter F) (args : List Text) (f g : F)
      → IsName name
      → formal name ≡ some set
      → valued formal set value alone f ≡ alone g
      → parse formal (with_value name value ∷ args) f ≡ parse formal args g
  parse-named name value set args f g h declared valid =
      parse-alone (with_value name value) args f g (λ next.
        take_one-looks_up (with_value name value) name (some value) next f
          (syntax-with_value name value h)
        ∙ rw declared (look_up-valued name value set next f ∙ valid))

  pub parse-text_flag :
      (name value : Text) (set : Text → F → F) (args : List Text) (f : F)
      → IsName name
      → formal name ≡ some (text_flag set)
      → parse formal (with_value name value ∷ args) f ≡ parse formal args (set value f)
  unfolding valued
  parse-text_flag name value set args f h declared =
      parse-named name value (text_flag set) args f (set value f) h declared refl

  pub parse-bool_flag :
      (name value : Text) (b : Bool) (set : Bool → F → F) (args : List Text) (f : F)
      → IsName name
      → formal name ≡ some (bool_flag set)
      → parse_bool value ≡ some b
      → parse formal (with_value name value ∷ args) f ≡ parse formal args (set b f)
  unfolding valued or_wrong
  parse-bool_flag name value b set args f h declared e =
      parse-named name value (bool_flag set) args f (set b f) h declared (rw e refl)

  pub parse-int_flag :
      (name value : Text) (n : ℤ) (set : ℤ → F → F) (args : List Text) (f : F)
      → IsName name
      → formal name ≡ some (int_flag set)
      → parse_int value ≡ some n
      → parse formal (with_value name value ∷ args) f ≡ parse formal args (set n f)
  unfolding valued or_wrong
  parse-int_flag name value n set args f h declared e =
      parse-named name value (int_flag set) args f (set n f) h declared (rw e refl)

pub parse-nil :
    {F : Type 0} (formal : Text → Option (Setter F)) (f : F) → parse formal [] f ≡ Parsed.parsed f
unfolding parse
parse-nil formal f = refl
