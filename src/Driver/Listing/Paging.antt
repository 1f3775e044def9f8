-- ===== src/Driver/Listing/Paging.antt =====
-- What the pages of ListVolumes hold.
pub mod Seen
pub mod Walk
pub mod OnePage
use qnap_csi.Base.{
  ℕ, zero, suc, ◌+◌, ◌-◌, ◌^◌, ◌≤◌, ◌<◌, ◌≡◌, ◌≢◌, refl, sym, ◌∙◌, ap, true, false, Bool, not, List,
  [], ◌∷◌, ◌++◌, map, append-nil, append_assoc, arith, Text, is_blank, ok, some, none, FinSet,
  IsFinSet, contains, length, take, drop, All, if◌then◌else◌, Bool-cases, inl, inr,
}
use qnap_csi.Base.Int.{ℤ, pos, eq_ℤ, eq_ℤ_iff, ltb_ℤ, IsInt64, int32_of}
use qnap_csi.Qnap.Types.{StorageIscsiTargetInfo}
use qnap_csi.Driver.Handler.{reply}
use qnap_csi.Driver.Token.{seen_indexes_to_base64_string, base64_seen_indexes_to_map}
use qnap_csi.Driver.Token.RoundTrip.{base64_seen_indexes_to_map_round_trip}
use qnap_csi.Driver.Listing.{Page, ListVolumesRequest, fill, start, seen_ids, limit_of, page_of}

abbrev pub names : List StorageIscsiTargetInfo → List Text
names = map (λ t. t.name)

module _ (sets : FinSet eq_ℤ) where
  -- The targets that the set lacks, the first of each index.
  abbrev pub unseen : sets.Carrier → List StorageIscsiTargetInfo → List StorageIscsiTargetInfo
  unseen seen [] = []
  unseen seen (t ∷ ts) =
      let skipped = unseen seen ts in
      let kept = unseen (sets.insert t.target_index seen) ts in
      if sets.has seen t.target_index then skipped else t ∷ kept

  abbrev pub insert_targets : List StorageIscsiTargetInfo → sets.Carrier → sets.Carrier
  insert_targets [] seen = seen
  insert_targets (t ∷ ts) seen = insert_targets ts (sets.insert t.target_index seen)

  -- The token behind a page, from the targets that remain.
  abbrev pub token_behind : sets.Carrier → List StorageIscsiTargetInfo → Text
  token_behind seen [] = []
  token_behind seen (_ ∷ _) = seen_indexes_to_base64_string (sets.to_list seen)

  pub int32_of_small : (n : ℕ) → n < 2 ^ 31 → int32_of n ≡ pos n
  unfolding int32_of
  int32_of_small n h = ground arith

  pub length-snoc : (xs : List Text) (x : Text) → length (xs ++ x ∷ []) ≡ length xs + 1
  length-snoc [] x = omega arith
  length-snoc (y ∷ xs) x = omega (arith, length-snoc xs x)

  full :
      (entries : List Text) (max : ℕ)
      → length entries ≡ max
      → max < 2 ^ 31
      → not (ltb_ℤ (int32_of (length entries)) (pos max)) ≡ true
  full entries max e h = rw (int32_of_small (length entries) (omega arith)) (ground arith)

  has_room :
      (entries : List Text) (max : ℕ)
      → length entries < max
      → max < 2 ^ 31
      → not (ltb_ℤ (int32_of (length entries)) (pos max)) ≡ false
  has_room entries max l h = rw (int32_of_small (length entries) (omega arith)) (ground arith)

  -- With room for `room` more entries.
  pub fill_lem :
      (ts : List StorageIscsiTargetInfo) (seen : sets.Carrier) (entries : List Text) (room max : ℕ)
      → length entries + room ≡ max
      → max < 2 ^ 31
      → fill sets (pos max) ts seen entries ≡ record {
        entries = entries ++ names (take room (unseen seen ts));
        next_token =
            token_behind
              (insert_targets (take room (unseen seen ts)) seen)
              (drop room (unseen seen ts));
      }
  unfolding fill
  fill_lem [] seen entries zero max e h = ground (arith, append-nil entries)
  fill_lem [] seen entries (suc room) max e h = ground (arith, append-nil entries)
  fill_lem (t ∷ ts) seen entries zero max e h = elim (Bool-cases (sets.has seen t.target_index)) [
    | inl old ↦ rw (old, fill) (fill_lem ts seen entries zero max e h)
    | inr new ↦ rw (new, fill, full entries max (omega arith) h, append-nil)
  ]
  fill_lem (t ∷ ts) seen entries (suc room) max e h =
      elim (Bool-cases (sets.has seen t.target_index)) [
        | inl old ↦ rw (old, fill) (fill_lem ts seen entries (suc room) max e h)
        | inr new ↦
            rw (new, fill, has_room entries max (omega arith) h)
              (fill_lem ts (sets.insert t.target_index seen) (entries ++ t.name ∷ []) room max
                  (omega (arith, length-snoc entries t.name)) h
                ∙ rw append_assoc)
      ]
