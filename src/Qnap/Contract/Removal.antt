-- ===== src/Qnap/Contract/Removal.antt =====
-- Removing by index and by name come to the same.
use qnap_csi.Base.{
  ◌≡◌, refl, sym, ap, ◌∙◌, Bool, true, false, Bool-cases, inl, inr, Option, none, some, [], ◌∷◌,
  Text, text_eq, text_eq_iff, arith, if◌then◌else◌,
}
use qnap_csi.Base.Int.{ℤ, eq_ℤ, eq_ℤ_iff}
use qnap_csi.Qnap.Contract.{Volumes, has_index, has_name, AreDistinct, without_index, without_name}

-- The index of the first target of the name.
abbrev pub first_index : Text → Volumes → Option ℤ
first_index name [] = none
first_index name ((j, n) ∷ vs) =
    let rest = first_index name vs in if text_eq n name then some j else rest

without_index-absent : (i : ℤ) (vs : Volumes) → has_index i vs ≡ false → without_index i vs ≡ vs
without_index-absent i [] h = refl
without_index-absent i ((j, n) ∷ vs) h = ground (arith, without_index-absent i vs)

without_name-absent :
    (name : Text) (vs : Volumes) → has_name name vs ≡ false → without_name name vs ≡ vs
without_name-absent name [] h = refl
without_name-absent name ((j, n) ∷ vs) h = ground (arith, without_name-absent name vs)

first_index-has :
    (name : Text) (vs : Volumes) (i : ℤ) → first_index name vs ≡ some i → has_index i vs ≡ true
first_index-has name [] i h = absurd (cc h)
first_index-has name ((j, n) ∷ vs) i h = ground (arith, first_index-has name vs i, (eq_ℤ_iff j i).1)

pub without_name-none :
    (name : Text) (vs : Volumes) → first_index name vs ≡ none → without_name name vs ≡ vs
without_name-none name [] h = refl
without_name-none name ((j, n) ∷ vs) h = ground (arith, without_name-none name vs)

or_else : ℤ → Option ℤ → ℤ
or_else j none = j
or_else j (some i) = i

pub without_name-some :
    (name : Text) (vs : Volumes) (i : ℤ)
    → AreDistinct vs
    → first_index name vs ≡ some i
    → without_name name vs ≡ without_index i vs
unfolding or_else
without_name-some name [] i _ h = absurd (cc h)
without_name-some name ((j, n) ∷ vs) i (hj, hn, d) h = elim (Bool-cases (text_eq n name)) [
  | inl same ↦
      let e : n ≡ name = (text_eq_iff n name).0 same in
      let ij : some j ≡ some i = rw same at h in
      let ji : eq_ℤ j i ≡ true = (eq_ℤ_iff j i).1 (ap (or_else j) ij) in
      rw (same, ji)
        (without_name-absent name vs (rw e at hn)
          ∙ sym (without_index-absent i vs (rw (ap (or_else j) ij) at hj)))
  | inr other ↦
      let later : first_index name vs ≡ some i = rw other at h in
      let apart : eq_ℤ j i ≡ false = not-same (eq_ℤ j i) refl (first_index-has name vs i later) in
      rw (other, apart) (ap (λ l. (j, n) ∷ l) (without_name-some name vs i d later))
]
  where
    not-same : (b : Bool) → eq_ℤ j i ≡ b → has_index i vs ≡ true → b ≡ false
    not-same true e found =
        let missing : has_index i vs ≡ false = rw ((eq_ℤ_iff j i).0 e) at hj in
        absurd (cc (missing, found))
    not-same false e found = refl
