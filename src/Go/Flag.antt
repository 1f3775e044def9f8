-- ===== src/Go/Flag.antt =====
-- flag.Parse over the arguments behind the command's name, as it sets the fields of a record `F` of
-- flags. The texts of its errors are left out.
pub mod Named
use qnap_csi.Base.{
  ℕ, Bool, true, false, not, ◌||◌, Option, none, some, List, [], ◌∷◌, Text, lit, text_eq, ◌==◌,
  if◌then◌else◌,
}
use qnap_csi.Base.Int.{ℤ}
use qnap_csi.Go.Literal.{parse_int, parse_bool}

-- How the value of a flag is set, by flag.String, flag.Bool and flag.Int.
pub data Setter (F : Type 0) : Type 0 where
  text_flag : (Text → F → F) → Setter F
  bool_flag : (Bool → F → F) → Setter F
  int_flag : (ℤ → F → F) → Setter F

-- What an argument is: not a flag, the "--" that ends the flags, a flag with the value behind its
-- equals sign, or none of these.
pub data Syntax : Type 0 where
  no_flag : Syntax
  terminator : Syntax
  named : Text → Option Text → Syntax
  malformed : Syntax

prefixed : ℕ → Text × Option Text → Text × Option Text
prefixed c (name, value) = (c ∷ name, value)

-- A name, and the value behind the first equals sign.
pub cut : Text → Text × Option Text
unfolding prefixed
cut [] = ([], none)
cut (c ∷ s) = let rest = cut s in if c == b'=' then ([], some s) else prefixed c rest

name_syntax : Text → Syntax
unfolding cut
name_syntax [] = malformed
name_syntax (c ∷ s) =
    if c == b'-' || c == b'='
    then malformed
    else let (name, value) = cut (c ∷ s) in named name value

pub syntax : Text → Syntax
unfolding name_syntax
syntax [] = no_flag
syntax (a ∷ []) = no_flag
syntax (a ∷ b ∷ s) =
    if not (a == b'-')
    then no_flag
    else if b == b'-'
    then elim s [ [] ↦ terminator | c ∷ t ↦ name_syntax (c ∷ t) ]
    else name_syntax (b ∷ s)

-- What comes of one argument: the flags end before it, it is a flag on its own, or one that takes the
-- next argument as its value, or an error, or a call for help.
pub data Taken (F : Type 0) : Type 0 where
  ended : Taken F
  alone : F → Taken F
  with_next : F → Taken F
  wrong : Taken F
  helped : Taken F

module _ {F : Type 0} (formal : Text → Option (Setter F)) where
  or_wrong : {A : Type 0} → Option A → (A → Taken F) → Taken F
  or_wrong none take = wrong
  or_wrong (some a) take = take a

  valued : Setter F → Text → (F → Taken F) → F → Taken F
  unfolding or_wrong
  valued (text_flag set) value taken f = taken (set value f)
  valued (bool_flag set) value taken f = or_wrong (parse_bool value) (λ b. taken (set b f))
  valued (int_flag set) value taken f = or_wrong (parse_int value) (λ n. taken (set n f))

  from_next : Setter F → Option Text → F → Taken F
  unfolding valued
  from_next set none f = wrong
  from_next set (some value) f = valued set value with_next f

  assign : Setter F → Option Text → Option Text → F → Taken F
  unfolding from_next valued
  assign set (some value) next f = valued set value alone f
  assign (bool_flag set) none next f = alone (set true f)
  assign (text_flag set) none next f = from_next (text_flag set) next f
  assign (int_flag set) none next f = from_next (int_flag set) next f

  look_up : Text → Option (Setter F) → Option Text → Option Text → F → Taken F
  unfolding assign
  look_up name none value next f =
      if text_eq name (lit "help") || text_eq name (lit "h") then helped else wrong
  look_up name (some set) value next f = assign set value next f

  -- parseOne, with the argument behind.
  take_one : Text → Option Text → F → Taken F
  unfolding look_up
  take_one s next f = elim (syntax s) [
    | no_flag ↦ ended
    | terminator ↦ ended
    | malformed ↦ wrong
    | named name value ↦ look_up name (formal name) value next f
  ]

-- The flags, or the usage that is printed, before the command exits with status 0 if it is asked for
-- and with 2 if an argument is wrong.
pub data Parsed (F : Type 0) : Type 0 where
  parsed : F → Parsed F
  usage : Bool → Parsed F

after_one : {F : Type 0} → Taken F → F → (F → Parsed F) → (F → Parsed F) → Parsed F
after_one ended f more behind = parsed f
after_one (alone g) f more behind = more g
after_one (with_next g) f more behind = behind g
after_one wrong f more behind = usage false
after_one helped f more behind = usage true

module _ {F : Type 0} (formal : Text → Option (Setter F)) where
  pub parse : List Text → F → Parsed F
  unfolding after_one take_one
  parse [] f = parsed f
  parse (s ∷ []) f = after_one (take_one formal s none f) f parsed parsed
  parse (s ∷ v ∷ args) f =
      let more = parse (v ∷ args) in
      let behind = parse args in after_one (take_one formal s (some v) f) f more behind
