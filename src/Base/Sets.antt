-- ===== src/Base/Sets.antt =====
-- The finite sets of k8s.io/apimachinery (sets.Int, sets.String): an interface and its laws.
use mathlib.Core.Path.{◌≡◌}
use mathlib.Core.Bool.{Bool, false, ◌||◌}
use mathlib.Core.List.{List, [], ◌∷◌}

abbrev pub contains {ℓ} : {A : Type ℓ} → (A → A → Bool) → List A → A → Bool
contains eq [] a = false
contains eq (x ∷ xs) a = eq x a || contains eq xs a

-- `eq` is Go's `==` on the items. `to_list` is List(), which is sorted; no law here says so.
pub record FinSet {A : Type 0} (eq : A → A → Bool) : Type 1 where
  pub Carrier : Type 0
  pub empty : Carrier
  pub insert : A → Carrier → Carrier
  pub has : Carrier → A → Bool
  pub to_list : Carrier → List A

pub record IsFinSet {A : Type 0} {eq : A → A → Bool} (S : FinSet eq) : Type 0 where
  pub to_list-empty : S.to_list S.empty ≡ []
  pub contains-to_list : (s : S.Carrier) (a : A) → contains eq (S.to_list s) a ≡ S.has s a
  pub has-insert : (s : S.Carrier) (a b : A) → S.has (S.insert a s) b ≡ (eq a b || S.has s b)

-- A list serves as a set.
abbrev pub list_set : {A : Type 0} (eq : A → A → Bool) → FinSet eq
list_set {A} eq = record {
  Carrier = List A;
  empty = [];
  insert = λ a s. a ∷ s;
  has = contains eq;
  to_list = λ s. s;
}
