-- ===== src/Go/Xml.antt =====
-- How xml.Unmarshal fills a struct from the elements of a document.
use qnap_csi.Base.{
  ℕ, Bool, ◌&&◌, ◌||◌, List, [], ◌∷◌, ◌++◌, Text, text_eq, Result, ok, err, leb, ◌==◌,
  if◌then◌else◌,
}
use qnap_csi.Base.Int.{ℤ, pos}
use qnap_csi.Go.Decimal.{atoi, parse_uint}

-- The name of an element, the text that stands directly in it, and its children.
mutual
  pub data Element : Type 0 where
    element : Text → Text → Elements → Element

  pub data Elements : Type 0 where
    nil : Elements
    cons : Element → Elements → Elements

abbrev pub text_of : Element → Text
text_of (element name text children) = text

abbrev pub children_of : Element → Elements
children_of (element name text children) = children

name_of : Element → Text
name_of (element name text children) = name

gather : (Element → List Element) → Text → Elements → List Element
gather f name nil = []
gather f name (cons e es) =
    let rest = gather f name es in if text_eq (name_of e) name then f e ++ rest else rest

-- The elements that a tag such as "LUNInfo>row>LUNIndex" is about, in document order.
pub at_path : List Text → Element → List Element
at_path [] e = e ∷ []
at_path (name ∷ path) e = gather (at_path path) name (children_of e)

last_text : List Element → Text → Text
last_text [] found = found
last_text (e ∷ es) found = last_text es (text_of e)

-- A field of type string: the last element counts.
pub string_at : List Text → Element → Text
string_at path e = last_text (at_path path e) []

is_space : ℕ → Bool
is_space c = c == 32 || leb 9 c && leb c 13

trim_spaces : Text → Text
trim_spaces [] = []
trim_spaces (c ∷ s) = let rest = trim_spaces s in if is_space c then rest else c ∷ s

trim_end : Text → Text
trim_end [] = []
trim_end (c ∷ s) = elim (trim_end s) [ [] ↦ if is_space c then [] else c ∷ [] | d ∷ t ↦ c ∷ d ∷ t ]

-- An empty element is 0.
int_text : Text → Result ℤ
int_text [] = ok (pos 0)
int_text (c ∷ s) = atoi (trim_end (trim_spaces (c ∷ s)))

uint_text : Text → Result ℕ
uint_text [] = ok 0
uint_text (c ∷ s) = parse_uint (trim_end (trim_spaces (c ∷ s)))

last_int : List Element → ℤ → Result ℤ
last_int [] found = ok found
last_int (e ∷ es) found = elim (int_text (text_of e)) [ err m ↦ err m | ok i ↦ last_int es i ]

last_uint : List Element → ℕ → Result ℕ
last_uint [] found = ok found
last_uint (e ∷ es) found = elim (uint_text (text_of e)) [ err m ↦ err m | ok i ↦ last_uint es i ]

pub int_at : List Text → Element → Result ℤ
int_at path e = last_int (at_path path e) (pos 0)

pub uint_at : List Text → Element → Result ℕ
uint_at path e = last_uint (at_path path e) 0

-- A slice: one item for each element.
pub each : {A : Type 0} → (Element → Result A) → List Element → Result (List A)
each f [] = ok []
each f (e ∷ es) = elim (f e) [
  | err m ↦ err m
  | ok a ↦ elim (each f es) [ err m ↦ err m | ok as' ↦ ok (a ∷ as') ]
]
