-- ===== src/Driver/Create/Listed.antt =====
-- The targets of a name in a list of the NAS, in terms of equality.
use qnap_csi.Base.{
  ◌≡◌, ◌≢◌, ◌⊎◌, ◌↔◌, refl, inl, inr, Bool, true, false, Bool-cases, List, [], ◌∷◌, Text, text_eq,
  text_eq_iff, arith, if◌then◌else◌,
}
use qnap_csi.Qnap.Types.{StorageIscsiTargetInfo}
use qnap_csi.Driver.Create.{has_target, iqn_of}

-- A target of the list has the name.
abbrev pub HasNamed : Text → List StorageIscsiTargetInfo → Type 0
HasNamed name [] = ⊥
HasNamed name (t ∷ ts) = (t.name ≡ name) ⊎ HasNamed name ts

-- The IQN of the first target of the list that has the name, or no text where none has.
abbrev pub FirstIqn : Text → Text → List StorageIscsiTargetInfo → Type 0
FirstIqn name iqn [] = iqn ≡ []
FirstIqn name iqn (t ∷ ts) =
    ((t.name ≡ name) × (iqn ≡ t.iqn)) ⊎ ((t.name ≢ name) × FirstIqn name iqn ts)

text_eq-ne : (a b : Text) → text_eq a b ≡ false → a ≢ b
text_eq-ne a b h e = let same : text_eq a b ≡ true = (text_eq_iff a b).1 e in cc

ne-text_eq : (a b : Text) → a ≢ b → text_eq a b ≡ false
ne-text_eq a b h = elim (Bool-cases (text_eq a b)) [
  | inl same ↦ absurd (h ((text_eq_iff a b).0 same))
  | inr other ↦ other
]

has_target-HasNamed :
    (name : Text) (ts : List StorageIscsiTargetInfo) → has_target name ts ≡ true → HasNamed name ts
unfolding has_target
has_target-HasNamed name [] h = cc
has_target-HasNamed name (t ∷ ts) h = elim (Bool-cases (text_eq t.name name)) [
  | inl same ↦ inl ((text_eq_iff t.name name).0 same)
  | inr other ↦ inr (has_target-HasNamed name ts (rw other at h))
]

HasNamed-has_target :
    (name : Text) (ts : List StorageIscsiTargetInfo) → HasNamed name ts → has_target name ts ≡ true
unfolding has_target
HasNamed-has_target name [] h = absurd h
HasNamed-has_target name (t ∷ ts) (inl e) = rw ((text_eq_iff t.name name).1 e) refl
HasNamed-has_target name (t ∷ ts) (inr h) = ground (arith, HasNamed-has_target name ts h)

pub has_target_iff :
    (name : Text) (ts : List StorageIscsiTargetInfo)
    → ((has_target name ts ≡ true) ↔ HasNamed name ts)
      × ((has_target name ts ≡ false) ↔ (HasNamed name ts → ⊥))
has_target_iff name ts = (
  (has_target-HasNamed name ts, HasNamed-has_target name ts),
  (
    λ absent there. let found = HasNamed-has_target name ts there in cc,
    λ absent. elim (Bool-cases (has_target name ts)) [
      | inl found ↦ absurd (absent (has_target-HasNamed name ts found))
      | inr other ↦ other
    ],
  ),
)

pub iqn_of-FirstIqn :
    (name : Text) (ts : List StorageIscsiTargetInfo) → FirstIqn name (iqn_of name ts) ts
unfolding iqn_of
iqn_of-FirstIqn name [] = refl
iqn_of-FirstIqn name (t ∷ ts) = go (iqn_of-FirstIqn name ts) (text_eq t.name name) refl
  where
    go :
        FirstIqn name (iqn_of name ts) ts
        → (b : Bool) → text_eq t.name name ≡ b
        → FirstIqn name (if b then t.iqn else iqn_of name ts) (t ∷ ts)
    go rest true same = inl ((text_eq_iff t.name name).0 same, refl)
    go rest false other = inr (text_eq-ne t.name name other, rest)
