-- ===== src/Driver/Token/Int64.antt =====
-- The indexes that a token is read as are int64s.
use mathlib.Core.Path.{subst}
use qnap_csi.Base.{
  ◌≡◌, refl, sym, ◌∙◌, true, false, Option, none, some, List, [], ◌∷◌, arith, Text, Result, ok, err,
  lit, Bool-cases, inl, inr, FinSet, IsFinSet,
}
use qnap_csi.Base.Int.{ℤ, eq_ℤ, eq_ℤ_iff, IsInt64}
use qnap_csi.Go.Decimal.{atoi, atoi-IsInt64}
use qnap_csi.Go.Base64.{decode}
use qnap_csi.Go.Strings.{split}
use qnap_csi.Driver.Token.{insert_all, base64_seen_indexes_to_map}

ok-injective : {A : Type 0} {a b : A} → ok a ≡ ok b → a ≡ b
ok-injective e = cc

module _ (sets : FinSet eq_ℤ) (L : IsFinSet sets) where
  -- Every index of the set is an int64, as Go's type says.
  abbrev pub HoldsInt64 : sets.Carrier → Type 0
  HoldsInt64 s = (a : ℤ) → sets.has s a ≡ true → IsInt64 a

  pub empty-HoldsInt64 : HoldsInt64 sets.empty
  empty-HoldsInt64 a h =
      let absent : sets.has sets.empty a ≡ false =
        sym (L.contains-to_list sets.empty a) ∙ rw L.to_list-empty in
      absurd (cc (absent, h))

  pub insert-HoldsInt64 :
      (s : sets.Carrier) (i : ℤ) → IsInt64 i → HoldsInt64 s → HoldsInt64 (sets.insert i s)
  insert-HoldsInt64 s i hi h a m = elim (Bool-cases (eq_ℤ i a)) [
    | inl same ↦ rw ((eq_ℤ_iff i a).0 same) at hi
    | inr other ↦ h a (ground (arith, L.has-insert s i a))
  ]

  insert_all-HoldsInt64 :
      (parts : List Text) (s s' : sets.Carrier)
      → HoldsInt64 s
      → insert_all sets parts s ≡ ok s'
      → HoldsInt64 s'
  unfolding insert_all
  insert_all-HoldsInt64 [] s s' h e = subst HoldsInt64 (ok-injective e) h
  insert_all-HoldsInt64 (part ∷ parts) s s' h e =
      go (λ i hi. insert_all-HoldsInt64 parts (sets.insert i s) s' (insert-HoldsInt64 s i hi h))
        (atoi part) refl e
    where
      go :
          ((i : ℤ) → IsInt64 i → insert_all sets parts (sets.insert i s) ≡ ok s' → HoldsInt64 s')
          → (r : Result ℤ) → atoi part ≡ r
          → (elim r [ err e ↦ err e | ok i ↦ insert_all sets parts (sets.insert i s) ]) ≡ ok s'
          → HoldsInt64 s'
      go later (ok i) read e = later i (atoi-IsInt64 part i read) e
      go later (err message) read e = λ a m. cc

  pub base64_seen_indexes_to_map-HoldsInt64 :
      (value : Text) (s : sets.Carrier)
      → base64_seen_indexes_to_map sets value ≡ ok s
      → HoldsInt64 s
  unfolding base64_seen_indexes_to_map
  base64_seen_indexes_to_map-HoldsInt64 value s e = go (decode value) e
    where
      go :
          (o : Option Text)
          → (elim o [
            | none ↦ err (lit "illegal base64 data")
            | some t ↦ insert_all sets (split t b',') sets.empty
          ])
            ≡ ok s
          → HoldsInt64 s
      go none e = λ a m. cc
      go (some t) e = insert_all-HoldsInt64 (split t b',') sets.empty s empty-HoldsInt64 e
