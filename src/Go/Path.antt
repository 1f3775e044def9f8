-- ===== src/Go/Path.antt =====
-- path.Clean and path.Join.
use qnap_csi.Base.{
  Bool, false, List, [], ◌∷◌, ◌++◌, Text, lit, text_eq, is_blank, ◌==◌, ◌||◌, if◌then◌else◌,
}
use qnap_csi.Go.Strings.{split, join}

is_rooted : Text → Bool
is_rooted [] = false
is_rooted (c ∷ s) = c == b'/'

-- What `..` does to the elements so far, the last of them first.
step_up : Bool → List Text → List Text
step_up rooted [] = if rooted then [] else lit ".." ∷ []
step_up rooted (e ∷ es) = if text_eq e (lit "..") then lit ".." ∷ e ∷ es else es

-- The elements so far with one more.
with_element : Bool → List Text → Text → List Text
unfolding step_up
with_element rooted kept e =
    if is_blank e || text_eq e (lit ".")
    then kept
    else if text_eq e (lit "..")
    then step_up rooted kept
    else e ∷ kept

clean_onto : Bool → List Text → List Text → List Text
unfolding with_element
clean_onto rooted kept [] = kept
clean_onto rooted kept (e ∷ es) = clean_onto rooted (with_element rooted kept e) es

turn_onto : List Text → List Text → List Text
turn_onto es [] = es
turn_onto es (k ∷ kept) = turn_onto (k ∷ es) kept

or_dot : Text → Text
or_dot [] = lit "."
or_dot (c ∷ s) = c ∷ s

-- path.Clean
pub clean : Text → Text
clean s =
    let elements = join (turn_onto [] (clean_onto (is_rooted s) [] (split s b'/'))) (lit "/") in
    if is_rooted s then b'/' ∷ elements else or_dot elements

-- path.Join of two elements.
pub join_path : Text → Text → Text
join_path a b = if is_blank a then (if is_blank b then [] else clean b) else clean (a ++ (b'/' ∷ b))

-- The bytes up to the last slash and with it.
up_to_slash : Text → Text
up_to_slash [] = []
up_to_slash (c ∷ s) = elim (up_to_slash s) [
  | [] ↦ if c == b'/' then c ∷ [] else []
  | d ∷ t ↦ c ∷ d ∷ t
]

-- path.Dir
pub dir : Text → Text
dir s = clean (up_to_slash s)
