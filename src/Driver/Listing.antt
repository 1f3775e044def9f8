-- ===== src/Driver/Listing.antt =====
-- ListVolumes of driver/controller.go.
pub mod Panic
pub mod Paging
use qnap_csi.Base.{
  ℕ, Bool, not, Option, none, some, List, [], ◌∷◌, ◌++◌, Text, is_blank, ok, err, FinSet, length,
  if◌then◌else◌,
}
use qnap_csi.Base.Int.{ℤ, pos, ltb_ℤ, eq_ℤ, int32_of}
use qnap_csi.Qnap.Types.{StorageIscsiTargetInfo}
use qnap_csi.Qnap.Client.{Client}
use qnap_csi.Driver.Handler.{Handler, Outcome, reply, panics, ◌>>=◌, ◌>>◌, call}
use qnap_csi.Driver.Config.{Libraries}
use qnap_csi.Driver.Create.{login_failed, list_failed}
use qnap_csi.Driver.Token.{seen_indexes_to_base64_string, base64_seen_indexes_to_map}

pub record ListVolumesRequest : Type 0 where
  pub starting_token : Text
  pub max_entries : ℤ

-- The ids of the volumes, and the token of the next page.
pub record Page : Type 0 where
  pub entries : List Text
  pub next_token : Text

module _ (sets : FinSet eq_ℤ) where
  -- The pointer `seenIds`, which stays nil where the request has no token. A token that cannot be
  -- read counts as the empty set.
  pub seen_ids : Text → Option sets.Carrier
  seen_ids token =
      if is_blank token
      then none
      else elim (base64_seen_indexes_to_map sets token) [ ok s ↦ some s | err e ↦ some sets.empty ]

  -- The loop over the targets.
  pub fill : ℤ → List StorageIscsiTargetInfo → sets.Carrier → List Text → Page
  fill max [] seen entries = record { entries = entries; next_token = [] }
  fill max (t ∷ ts) seen entries =
      let skipped = fill max ts seen entries in
      let added = fill max ts (sets.insert t.target_index seen) (entries ++ (t.name ∷ [])) in
      if sets.has seen t.target_index
      then skipped
      else if not (ltb_ℤ (int32_of (length entries)) max)
      then record {
        entries = entries;
        next_token = seen_indexes_to_base64_string (sets.to_list seen);
      }
      else added

  -- `seenIds.Has` reads through the pointer.
  pub start : ℤ → List StorageIscsiTargetInfo → Option sets.Carrier → Outcome Page
  start max [] none = reply (record { entries = []; next_token = [] })
  start max (t ∷ ts) none = panics
  start max ts (some seen) = reply (fill max ts seen [])

  pub limit_of : ℤ → List StorageIscsiTargetInfo → ℤ
  limit_of max ts = if eq_ℤ max (pos 0) then int32_of (length ts) else max

  pub page_of : ListVolumesRequest → List StorageIscsiTargetInfo → Outcome Page
  page_of req ts = start (limit_of req.max_entries ts) ts (seen_ids req.starting_token)

module _ {W : Type 0} (c : Client W) where
  pub list_volumes : Libraries → ListVolumesRequest → Handler W Page
  list_volumes libs req = do
    call c.login login_failed
    targets ← call c.get_storage_iscsi_target_list list_failed
    λ w. (page_of libs.ints req targets, w)
