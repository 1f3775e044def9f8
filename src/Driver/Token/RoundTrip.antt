-- ===== src/Driver/Token/RoundTrip.antt =====
-- A token is read back as the indexes that it was made of.
use qnap_csi.Base.{
  ℕ, suc, ◌≤◌, ◌≡◌, ◌≢◌, refl, sym, ◌∙◌, ap, false, is_blank, ◌||◌, List, [], ◌∷◌, ◌++◌, map,
  append_assoc, append-nil, arith, Text, ok, FinSet, IsFinSet, All, All-append, All-mono, contains,
}
use qnap_csi.Base.Int.{ℤ, pos, negsuc, eq_ℤ, IsInt64}
use qnap_csi.Go.Decimal.{itoa, itoa_nat, atoi-itoa, IsDigit, itoa_nat-IsDigit, itoa_nat-ne-nil}
use qnap_csi.Go.Base64.{encode}
use qnap_csi.Go.Base64.RoundTrip.{IsByte, decode-encode, is_blank-encode}
use qnap_csi.Go.Strings.{split, trim_right}
use qnap_csi.Go.Strings.Laws.{
  Lacks, split_lacking, split-append, trim_right_lacking, trim_right-snoc, trim_right-append,
}
use qnap_csi.Driver.Token.{
  spell, seen_indexes_to_base64_string, insert_all, base64_seen_indexes_to_map,
}

-- A byte of a decimal number.
abbrev IsNumeral : ℕ → Type 0
IsNumeral c = (b'-' ≤ c) × (c ≤ b'9')

itoa-IsNumeral : (z : ℤ) → All IsNumeral (itoa z)
unfolding itoa
itoa-IsNumeral (pos n) =
    All-mono {P = IsDigit} {Q = IsNumeral} (itoa_nat n) (λ c h. omega arith) (itoa_nat-IsDigit n)
itoa-IsNumeral (negsuc n) = (
  omega arith,
  All-mono {P = IsDigit} {Q = IsNumeral} (itoa_nat (suc n)) (λ c h. omega arith)
      (itoa_nat-IsDigit (suc n)),
)

itoa-ne-nil : (z : ℤ) → itoa z ≢ []
unfolding itoa
itoa-ne-nil (pos n) = itoa_nat-ne-nil n
itoa-ne-nil (negsuc n) = λ h. cc

itoa-Lacks : (z : ℤ) → Lacks b',' (itoa z)
itoa-Lacks z =
    All-mono {P = IsNumeral} {Q = λ c. c ≢ b','} (itoa z) (λ c h. omega arith) (itoa-IsNumeral z)

-- The numbers with a comma between two.
joined : ℤ → List ℤ → Text
joined i [] = itoa i
joined i (j ∷ js) = itoa i ++ (b',' ∷ joined j js)

-- The numbers with a comma behind each.
ended : List ℤ → Text
ended [] = []
ended (i ∷ is) = itoa i ++ (b',' ∷ ended is)

spell-ended : (is : List ℤ) (result : Text) → spell result is ≡ result ++ ended is
unfolding spell ended
spell-ended [] result = sym (append-nil result)
spell-ended (i ∷ is) result = simp (spell-ended is, append_assoc)

joined-ne-nil : (i : ℤ) (is : List ℤ) → joined i is ≢ []
unfolding joined
joined-ne-nil i [] = itoa-ne-nil i
joined-ne-nil i (j ∷ js) = go (itoa i)
  where
    go : (s : Text) → s ++ (b',' ∷ joined j js) ≢ []
    go [] = λ e. cc
    go (c ∷ s) = λ e. cc

trim_right-ended : (i : ℤ) (is : List ℤ) → trim_right (ended (i ∷ is)) b',' ≡ joined i is
unfolding ended joined
trim_right-ended i [] =
    trim_right-snoc (itoa i) b',' ∙ trim_right_lacking (itoa i) b',' (itoa-Lacks i)
trim_right-ended i (j ∷ js) =
    let rest : trim_right (b',' ∷ ended (j ∷ js)) b',' ≡ b',' ∷ joined j js =
      trim_right-append (b',' ∷ []) (ended (j ∷ js)) b','
        (rw (trim_right-ended j js) (joined-ne-nil j js))
      ∙ ap (λ t. b',' ∷ t) (trim_right-ended j js) in
    trim_right-append (itoa i) (b',' ∷ ended (j ∷ js)) b',' (rw rest (λ e. cc))
    ∙ ap (λ t. itoa i ++ t) rest

split-joined : (i : ℤ) (is : List ℤ) → split (joined i is) b',' ≡ map itoa (i ∷ is)
unfolding joined
split-joined i [] = split_lacking (itoa i) b',' (itoa-Lacks i)
split-joined i (j ∷ js) =
    split-append (itoa i) (joined j js) b',' (itoa-Lacks i)
    ∙ ap (λ l. itoa i ∷ l) (split-joined j js)

itoa-IsByte : (z : ℤ) → All IsByte (itoa z)
itoa-IsByte z =
    All-mono {P = IsNumeral} {Q = IsByte} (itoa z) (λ c h. omega arith) (itoa-IsNumeral z)

joined-IsByte : (i : ℤ) (is : List ℤ) → All IsByte (joined i is)
unfolding joined
joined-IsByte i [] = itoa-IsByte i
joined-IsByte i (j ∷ js) =
    All-append IsByte (itoa i) (b',' ∷ joined j js) (itoa-IsByte i)
      (omega arith, joined-IsByte j js)

-- The text in a token that is not empty.
token-joined : (i : ℤ) (is : List ℤ) → seen_indexes_to_base64_string (i ∷ is) ≡ encode (joined i is)
unfolding seen_indexes_to_base64_string
token-joined i is = ap encode (rw (spell-ended (i ∷ is) []) (trim_right-ended i is))

pub is_blank-token :
    (ints : List ℤ) → ints ≢ [] → is_blank (seen_indexes_to_base64_string ints) ≡ false
is_blank-token [] h = absurd (h refl)
is_blank-token (i ∷ is) h = rw (token-joined i is) (is_blank-encode _ (joined-ne-nil i is))

module _ (sets : FinSet eq_ℤ) (L : IsFinSet sets) where
  abbrev insert_ints : List ℤ → sets.Carrier → sets.Carrier
  insert_ints [] s = s
  insert_ints (i ∷ is) s = insert_ints is (sets.insert i s)

  insert_all-itoa :
      (is : List ℤ) (s : sets.Carrier)
      → All IsInt64 is
      → insert_all sets (map itoa is) s ≡ ok (insert_ints is s)
  unfolding insert_all
  insert_all-itoa [] s h = refl
  insert_all-itoa (i ∷ is) s (hi, h) =
      rw (atoi-itoa i hi, insert_all) (insert_all-itoa is (sets.insert i s) h)

  has-insert_ints :
      (is : List ℤ) (s : sets.Carrier) (a : ℤ)
      → sets.has (insert_ints is s) a ≡ (contains eq_ℤ is a || sets.has s a)
  has-insert_ints [] s a = refl
  has-insert_ints (i ∷ is) s a =
      ground (arith, has-insert_ints is (sets.insert i s) a, L.has-insert s i a)

  has-empty : (a : ℤ) → sets.has sets.empty a ≡ false
  has-empty a = sym (L.contains-to_list sets.empty a) ∙ rw L.to_list-empty

  -- For any lawful set of numbers, int64 indexes, at least one: their token is read back without
  -- an error, as a set that has exactly these indexes.
  pub base64_seen_indexes_to_map_round_trip :
      (ints : List ℤ)
      → ints ≢ []
      → All IsInt64 ints
      → (s : sets.Carrier) × (base64_seen_indexes_to_map sets (seen_indexes_to_base64_string ints)
          ≡ ok s)
        × ((a : ℤ) → sets.has s a ≡ contains eq_ℤ ints a)
  unfolding base64_seen_indexes_to_map
  base64_seen_indexes_to_map_round_trip [] h _ = absurd (h refl)
  base64_seen_indexes_to_map_round_trip (i ∷ is) _ h = (
    insert_ints (i ∷ is) sets.empty,
    rw
        (
          token-joined i is,
          decode-encode (joined i is) (joined-IsByte i is),
          split-joined i is,
          base64_seen_indexes_to_map,
        )
        (insert_all-itoa (i ∷ is) sets.empty h),
    λ a. rw (has-insert_ints, has-empty) (ground arith),
  )
