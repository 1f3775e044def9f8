-- ===== src/Driver/Token.antt =====
-- The page tokens of ListVolumes: seenIndexesToBase64String and base64SeenIndexesToMap of
-- driver/utils.go.
pub mod RoundTrip
pub mod Int64
use qnap_csi.Base.{ℕ, Option, none, some, List, [], ◌∷◌, ◌++◌, Text, lit, Result, ok, err, FinSet}
use qnap_csi.Base.Int.{ℤ, eq_ℤ}
use qnap_csi.Go.Decimal.{itoa, atoi}
use qnap_csi.Go.Base64.{encode, decode}
use qnap_csi.Go.Strings.{split, trim_right}

-- The loop `result += strconv.Itoa(elem) + ","`.
spell : Text → List ℤ → Text
spell result [] = result
spell result (elem ∷ ints) = spell (result ++ (itoa elem ++ (b',' ∷ []))) ints

pub seen_indexes_to_base64_string : List ℤ → Text
seen_indexes_to_base64_string ints = encode (trim_right (spell [] ints) b',')

module _ (sets : FinSet eq_ℤ) where
  -- The loop over the parts; the first error ends it.
  insert_all : List Text → sets.Carrier → Result sets.Carrier
  insert_all [] s = ok s
  insert_all (part ∷ parts) s = elim (atoi part) [
    | err e ↦ err e
    | ok i ↦ insert_all parts (sets.insert i s)
  ]

  pub base64_seen_indexes_to_map : Text → Result sets.Carrier
  base64_seen_indexes_to_map value = elim (decode value) [
    | none ↦ err (lit "illegal base64 data")
    | some s ↦ insert_all (split s b',') sets.empty
  ]
