-- ===== src/Go/Url.antt =====
-- url.Values: the pairs in the order in which they were added, and their encoded form.
use qnap_csi.Base.{
  ℕ, ◌+◌, ◌-◌, ◌/◌, ◌%◌, Bool, true, false, ◌&&◌, ◌||◌, List, [], ◌∷◌, ◌++◌, Text, ltb, leb, ◌==◌,
  if◌then◌else◌,
}

abbrev pub Values : Type 0
Values = List (Text × Text)

hex_digit : ℕ → ℕ
hex_digit n = if ltb n 10 then b'0' + n else b'A' + (n - 10)

is_unreserved : ℕ → Bool
is_unreserved c =
    leb b'a' c && leb c b'z'
    || leb b'A' c && leb c b'Z'
    || leb b'0' c && leb c b'9'
    || c == b'-'
    || c == b'_'
    || c == b'.'
    || c == b'~'

-- url.QueryEscape
pub query_escape : Text → Text
query_escape [] = []
query_escape (c ∷ s) =
    let rest = query_escape s in
    if is_unreserved c
    then c ∷ rest
    else if c == 32
    then b'+' ∷ rest
    else b'%' ∷ hex_digit (c / 16) ∷ hex_digit (c % 16) ∷ rest

-- The order of Go's strings.
text_le : Text → Text → Bool
text_le [] t = true
text_le (a ∷ s) [] = false
text_le (a ∷ s) (b ∷ t) = let rest = text_le s t in if a == b then rest else ltb a b

-- Behind the keys that are no greater, so that equal keys stay in order.
insert_pair : Text × Text → Values → Values
insert_pair p [] = p ∷ []
insert_pair p (q ∷ qs) =
    let rest = insert_pair p qs in if text_le q.0 p.0 then q ∷ rest else p ∷ q ∷ qs

sort_onto : Values → Values → Values
sort_onto sorted [] = sorted
sort_onto sorted (p ∷ ps) = sort_onto (insert_pair p sorted) ps

join_pairs : Values → Text
join_pairs [] = []
join_pairs ((k, v) ∷ []) = query_escape k ++ (b'=' ∷ query_escape v)
join_pairs ((k, v) ∷ p ∷ ps) =
    query_escape k ++ (b'=' ∷ (query_escape v ++ (b'&' ∷ join_pairs (p ∷ ps))))

-- Encode, which sorts by key.
pub encode_values : Values → Text
encode_values vs = join_pairs (sort_onto [] vs)
