-- ===== src/Driver/Listing/Paging/Seen.antt =====
-- The sets of seen indexes behind the pages of ListVolumes.
use mathlib.Core.Path.{subst}
use mathlib.Core.Option.{some-injective}
use qnap_csi.Base.{
  Result, err, none, ℕ, zero, suc, ◌≡◌, ◌≢◌, refl, sym, ◌∙◌, ap, true, false, Bool, List, [], ◌∷◌,
  arith, Text, is_blank, ok, some, none, FinSet, IsFinSet, contains, take, drop, All, if◌then◌else◌,
  Bool-cases, inl, inr,
}
use qnap_csi.Base.Int.{ℤ, eq_ℤ, eq_ℤ_iff, IsInt64}
use qnap_csi.Qnap.Types.{StorageIscsiTargetInfo}
use qnap_csi.Driver.Token.Int64.{
  HoldsInt64, empty-HoldsInt64, insert-HoldsInt64, base64_seen_indexes_to_map-HoldsInt64,
}
use qnap_csi.Driver.Token.{seen_indexes_to_base64_string, base64_seen_indexes_to_map}
use qnap_csi.Driver.Token.RoundTrip.{base64_seen_indexes_to_map_round_trip, is_blank-token}
use qnap_csi.Driver.Listing.{seen_ids}
use qnap_csi.Driver.Listing.Paging.{unseen, insert_targets}

module _ (sets : FinSet eq_ℤ) (L : IsFinSet sets) where
  abbrev pub Same : sets.Carrier → sets.Carrier → Type 0
  Same s s' = (a : ℤ) → sets.has s a ≡ sets.has s' a

  same-insert :
      (s s' : sets.Carrier) (i : ℤ) → Same s s' → Same (sets.insert i s) (sets.insert i s')
  same-insert s s' i h a = rw (L.has-insert, L.has-insert, h a)

  pub unseen_cong :
      (ts : List StorageIscsiTargetInfo) (s s' : sets.Carrier)
      → Same s s'
      → unseen sets s ts ≡ unseen sets s' ts
  unseen_cong [] s s' h = refl
  unseen_cong (t ∷ ts) s s' h =
      let i = t.target_index in
      ground (
        arith,
        h i,
        unseen_cong ts s s' h,
        unseen_cong ts (sets.insert i s) (sets.insert i s') (same-insert s s' i h),
      )

  pub has-insert_targets :
      (ts : List StorageIscsiTargetInfo) (s : sets.Carrier) (a : ℤ)
      → sets.has s a ≡ true
      → sets.has (insert_targets sets ts s) a ≡ true
  has-insert_targets [] s a h = h
  has-insert_targets (t ∷ ts) s a h =
      has-insert_targets ts (sets.insert t.target_index s) a
        (ground (arith, L.has-insert s t.target_index a))

  pub has_new : (s : sets.Carrier) (i : ℤ) → sets.has (sets.insert i s) i ≡ true
  has_new s i = rw (L.has-insert, (eq_ℤ_iff i i).1 refl)

  -- What a page leaves.
  pub unseen-insert_targets :
      (n : ℕ) (ts : List StorageIscsiTargetInfo) (s : sets.Carrier)
      → unseen sets (insert_targets sets (take n (unseen sets s ts)) s) ts
        ≡ drop n (unseen sets s ts)
  unseen-insert_targets zero ts s = refl
  unseen-insert_targets (suc n) [] s = refl
  unseen-insert_targets (suc n) (t ∷ ts) s =
      let i = t.target_index in
      elim (Bool-cases (sets.has s i)) [
        | inl old ↦
            rw (old, has-insert_targets (take (suc n) (unseen sets s ts)) s i old)
              (unseen-insert_targets (suc n) ts s)
        | inr new ↦
            rw
              (
                new,
                has-insert_targets (take n (unseen sets (sets.insert i s) ts)) (sets.insert i s) i
                    (has_new s i),
              )
              (unseen-insert_targets n ts (sets.insert i s))
      ]

  abbrev pub IndexesInt64 : List StorageIscsiTargetInfo → Type 0
  IndexesInt64 = All (λ t. IsInt64 t.target_index)

  pub insert_targets-HoldsInt64 :
      (n : ℕ) (ts : List StorageIscsiTargetInfo) (s : sets.Carrier)
      → IndexesInt64 ts
      → HoldsInt64 sets L s
      → HoldsInt64 sets L (insert_targets sets (take n (unseen sets s ts)) s)
  insert_targets-HoldsInt64 zero ts s hs h = h
  insert_targets-HoldsInt64 (suc n) [] s hs h = h
  insert_targets-HoldsInt64 (suc n) (t ∷ ts) s (ht, hs) h =
      let i = t.target_index in
      elim (Bool-cases (sets.has s i)) [
        | inl old ↦ rw old (insert_targets-HoldsInt64 (suc n) ts s hs h)
        | inr new ↦ rw new (
            insert_targets-HoldsInt64 n ts (sets.insert i s) hs (insert-HoldsInt64 sets L s i ht h))
      ]

  to_list-IsInt64 : (l : List ℤ) → ((a : ℤ) → contains eq_ℤ l a ≡ true → IsInt64 a) → All IsInt64 l
  to_list-IsInt64 [] h = tt
  to_list-IsInt64 (i ∷ is) h =
      (h i (rw ((eq_ℤ_iff i i).1 refl)), to_list-IsInt64 is (λ a m. h a (ground (arith, m))))

  -- The set behind a page that takes something has something in it.
  pub to_list-ne-nil : (s : sets.Carrier) (a : ℤ) → sets.has s a ≡ true → sets.to_list s ≢ []
  to_list-ne-nil s a h e =
      let none_there : contains eq_ℤ (sets.to_list s) a ≡ false = rw e in
      cc (L.contains-to_list s a, h, none_there)

  -- The token of a set is read as a set of the same items.
  pub seen_ids-token :
      (s : sets.Carrier)
      → sets.to_list s ≢ []
      → HoldsInt64 sets L s
      → (s' : sets.Carrier) × (seen_ids sets (seen_indexes_to_base64_string (sets.to_list s))
          ≡ some s')
        × Same s' s
  unfolding seen_ids
  seen_ids-token s ne h =
      let int64s =
        to_list-IsInt64 (sets.to_list s) (λ a m. h a (sym (L.contains-to_list s a) ∙ m)) in
      let (s', read, same) =
        base64_seen_indexes_to_map_round_trip sets L (sets.to_list s) ne int64s in
      (s', rw (is_blank-token (sets.to_list s) ne, read), λ a. same a ∙ L.contains-to_list s a)

  pub seen_ids-HoldsInt64 :
      (token : Text) (s : sets.Carrier) → seen_ids sets token ≡ some s → HoldsInt64 sets L s
  unfolding seen_ids
  seen_ids-HoldsInt64 token s e = go (is_blank token) (base64_seen_indexes_to_map sets token) refl e
    where
      go :
          (b : Bool) (r : Result sets.Carrier)
          → base64_seen_indexes_to_map sets token ≡ r
          → (if b then none else elim r [ ok t ↦ some t | err e ↦ some sets.empty ]) ≡ some s
          → HoldsInt64 sets L s
      go true r read e = λ a m. cc
      go false (ok t) read e =
          base64_seen_indexes_to_map-HoldsInt64 sets L token s (read ∙ ap ok (some-injective t s e))
      go false (err message) read e =
          subst (HoldsInt64 sets L) (some-injective sets.empty s e) (empty-HoldsInt64 sets L)
