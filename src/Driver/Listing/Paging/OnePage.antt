-- ===== src/Driver/Listing/Paging/OnePage.antt =====
-- One page of ListVolumes.
use qnap_csi.Base.{
  ℕ, ◌^◌, ◌≤◌, ◌<◌, ◌≡◌, refl, ap, false, not, Bool-cases, inl, inr, Option, none, some, List, [],
  ◌∷◌, ◌++◌, arith, Text, ok, FinSet, length, take, drop, if◌then◌else◌,
}
use qnap_csi.Base.Int.{ℤ, pos, pos_part, eq_ℤ, ltb_ℤ, int32_of}
use qnap_csi.Qnap.Types.{StorageIscsiTargetInfo}
use qnap_csi.Qnap.Client.{Client, listed}
use qnap_csi.Driver.Handler.{reply}
use qnap_csi.Driver.Config.{Libraries}
use qnap_csi.Driver.Listing.{
  ListVolumesRequest, Page, seen_ids, fill, start, limit_of, page_of, list_volumes,
}
use qnap_csi.Driver.Listing.Paging.{
  names, unseen, insert_targets, token_behind, fill_lem, int32_of_small, length-snoc,
}

-- How many entries a page may have.
abbrev pub room_of : ℤ → List StorageIscsiTargetInfo → ℕ
room_of max ts = if eq_ℤ max (pos 0) then length ts else pos_part max

module _ (sets : FinSet eq_ℤ) where
  -- The page by its parts: the first targets that are not seen, and the token of the rest.
  abbrev pub page_for : ℕ → sets.Carrier → List StorageIscsiTargetInfo → Page
  page_for room seen ts = record {
    entries = names (take room (unseen sets seen ts));
    next_token =
        token_behind sets (insert_targets sets (take room (unseen sets seen ts)) seen)
          (drop room (unseen sets seen ts));
  }

  start-fill :
      (max : ℤ) (ts : List StorageIscsiTargetInfo) (s : sets.Carrier)
      → start sets max ts (some s) ≡ reply (fill sets max ts s [])
  unfolding start
  start-fill max [] s = refl
  start-fill max (t ∷ ts) s = refl

  limit_of-room :
      (max : ℕ) (ts : List StorageIscsiTargetInfo)
      → length ts < 2 ^ 31
      → limit_of sets (pos max) ts ≡ pos (room_of (pos max) ts)
  unfolding limit_of
  limit_of-room max ts few = ground (arith, int32_of_small sets (length ts) few)

  room-small :
      (max : ℕ) (ts : List StorageIscsiTargetInfo)
      → max < 2 ^ 31
      → length ts < 2 ^ 31
      → room_of (pos max) ts < 2 ^ 31
  room-small max ts small few = ground arith

  page_of-page_for :
      (token : Text) (max : ℕ) (s : sets.Carrier) (ts : List StorageIscsiTargetInfo)
      → max < 2 ^ 31
      → length ts < 2 ^ 31
      → seen_ids sets token ≡ some s
      → page_of sets (record { starting_token = token; max_entries = pos max }) ts
        ≡ reply (page_for (room_of (pos max) ts) s ts)
  unfolding page_of
  page_of-page_for token max s ts small few read =
      rw (read, limit_of-room max ts few, start-fill)
        (ap reply (
          fill_lem sets ts s [] (room_of (pos max) ts) (room_of (pos max) ts) (omega arith)
            (room-small max ts small few)))

  room-left :
      (l : ℕ) (max : ℤ)
      → l ≤ pos_part max
      → pos_part max < 2 ^ 31
      → not (ltb_ℤ (int32_of l) max) ≡ false
      → l < pos_part max
  room-left l max le small h = ground (arith, int32_of_small sets l (omega arith))

  fill-bounded :
      (max : ℤ) (ts : List StorageIscsiTargetInfo) (seen : sets.Carrier) (entries : List Text)
      → length entries ≤ pos_part max
      → pos_part max < 2 ^ 31
      → length (fill sets max ts seen entries).entries ≤ pos_part max
  unfolding fill
  fill-bounded max [] seen entries le small = le
  fill-bounded max (t ∷ ts) seen entries le small =
      elim (Bool-cases (sets.has seen t.target_index)) [
        | inl old ↦ rw (old, fill) (fill-bounded max ts seen entries le small)
        | inr new ↦ elim (Bool-cases (not (ltb_ℤ (int32_of (length entries)) max))) [
          | inl full ↦ rw (new, fill, full) le
          | inr left ↦
              let lt : length entries < pos_part max =
                room-left (length entries) max le small left in
              rw (new, fill, left)
                (fill-bounded max ts (sets.insert t.target_index seen) (entries ++ t.name ∷ [])
                  (omega (arith, length-snoc sets entries t.name)) small)
        ]
      ]

  -- The limit of the loop allows as many entries as the request.
  limit_of-room_of :
      (max : ℤ) (ts : List StorageIscsiTargetInfo)
      → length ts < 2 ^ 31
      → pos_part (limit_of sets max ts) ≡ room_of max ts
  unfolding limit_of
  limit_of-room_of max ts few = ground (arith, int32_of_small sets (length ts) few)

  room_of-small :
      (max : ℤ) (ts : List StorageIscsiTargetInfo)
      → pos_part max < 2 ^ 31
      → length ts < 2 ^ 31
      → room_of max ts < 2 ^ 31
  room_of-small max ts small few = ground arith

  start-bounded :
      (max : ℤ) (ts : List StorageIscsiTargetInfo) (o : Option sets.Carrier) (page : Page)
      → pos_part max < 2 ^ 31
      → start sets max ts o ≡ reply page
      → length page.entries ≤ pos_part max
  unfolding start
  start-bounded max [] none page small e =
      let same : page ≡ record { entries = []; next_token = [] } = cc e in rw same (omega arith)
  start-bounded max (t ∷ ts) none page small e = absurd (cc e)
  start-bounded max [] (some seen) page small e =
      let same : fill sets max [] seen [] ≡ page = cc e in
      rw⁻¹ same (fill-bounded max [] seen [] (omega arith) small)
  start-bounded max (t ∷ ts) (some seen) page small e =
      let same : fill sets max (t ∷ ts) seen [] ≡ page = cc e in
      rw⁻¹ same (fill-bounded max (t ∷ ts) seen [] (omega arith) small)

  page_of-bounded :
      (req : ListVolumesRequest) (ts : List StorageIscsiTargetInfo) (page : Page)
      → pos_part req.max_entries < 2 ^ 31
      → length ts < 2 ^ 31
      → page_of sets req ts ≡ reply page
      → length page.entries ≤ room_of req.max_entries ts
  unfolding page_of
  page_of-bounded req ts page small few e =
      let same = limit_of-room_of req.max_entries ts few in
      rw⁻¹ same (
        start-bounded (limit_of sets req.max_entries ts) ts (seen_ids sets req.starting_token) page
          (rw same (room_of-small req.max_entries ts small few)) e)

module _ {W : Type 0} (c : Client W) where
  -- Where the NAS lists fewer than 2^31 targets, after a login: ListVolumes with a token that is read
  -- as the set s, and a limit below 2^31, replies with the page that is computed without its loop:
  -- the names of the first targets that s lacks, each index once and as many as the limit (all of
  -- them if it is 0), with the token of s and of their indexes, and none if they are the last.
  pub list_volumes_page :
      (libs : Libraries) (token : Text) (max : ℕ) (s : libs.ints.Carrier)
      (ts : List StorageIscsiTargetInfo) (w : W)
      → max < 2 ^ 31
      → length ts < 2 ^ 31
      → seen_ids libs.ints token ≡ some s
      → (c.login w).0 ≡ ok tt
      → (c.get_storage_iscsi_target_list (c.login w).1).0 ≡ ok ts
      → list_volumes c libs (record { starting_token = token; max_entries = pos max }) w ≡ (
        reply (page_for libs.ints (room_of (pos max) ts) s ts),
        (c.get_storage_iscsi_target_list (c.login w).1).1,
      )
  unfolding list_volumes
  list_volumes_page libs token max s ts w small few read logged_in listed_them =
      rw (logged_in, listed_them, page_of-page_for libs.ints token max s ts small few read) refl

  told :
      (libs : Libraries) (req : ListVolumesRequest) (page : Page) (w : W)
      → (list_volumes c libs req w).0 ≡ reply page
      → page_of libs.ints req (listed c w) ≡ reply page
  unfolding list_volumes
  told libs req page w e = ground arith

  -- Where the NAS lists fewer than 2^31 targets: no page of ListVolumes has more entries than the
  -- request's limit, an int32; it has none for a negative limit, and for the limit 0 at most as
  -- many as there are targets.
  pub list_volumes_bounded :
      (libs : Libraries) (req : ListVolumesRequest) (page : Page) (w : W)
      → pos_part req.max_entries < 2 ^ 31
      → length (listed c w) < 2 ^ 31
      → (list_volumes c libs req w).0 ≡ reply page
      → length page.entries ≤ room_of req.max_entries (listed c w)
  list_volumes_bounded libs req page w small few e =
      page_of-bounded libs.ints req (listed c w) page small few (told libs req page w e)
