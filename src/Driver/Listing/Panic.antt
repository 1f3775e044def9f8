-- ===== src/Driver/Listing/Panic.antt =====
-- When ListVolumes panics.
use qnap_csi.Base.{
  ◌≡◌, ◌≢◌, ◌↔◌, true, List, [], ◌∷◌, arith, is_blank, ok, FinSet, none, some, Text, Option,
}
use qnap_csi.Base.Int.{ℤ, eq_ℤ}
use qnap_csi.Qnap.Types.{StorageIscsiTargetInfo}
use qnap_csi.Qnap.Client.{Client, listed}
use qnap_csi.Driver.Handler.{panics}
use qnap_csi.Driver.Config.{Libraries}
use qnap_csi.Driver.Listing.{ListVolumesRequest, seen_ids, start, limit_of, page_of, list_volumes}

seen_ids-none :
    (sets : FinSet eq_ℤ) (token : Text) → (seen_ids sets token ≡ none) ↔ (is_blank token ≡ true)
unfolding seen_ids
seen_ids-none sets token = ground arith

start-panics :
    (sets : FinSet eq_ℤ) (max : ℤ) (ts : List StorageIscsiTargetInfo) (o : Option sets.Carrier)
    → (start sets max ts o ≡ panics) ↔ ((o ≡ none) × (ts ≢ []))
unfolding start
start-panics sets max [] none = ground arith
start-panics sets max (t ∷ ts) none = ground arith
start-panics sets max [] (some seen) = ground arith
start-panics sets max (t ∷ ts) (some seen) = ground arith

page_of-panics :
    (sets : FinSet eq_ℤ) (req : ListVolumesRequest) (ts : List StorageIscsiTargetInfo)
    → (page_of sets req ts ≡ panics) ↔ ((is_blank req.starting_token ≡ true) × (ts ≢ []))
unfolding page_of
page_of-panics sets req ts = ground (
  arith,
  start-panics sets (limit_of sets req.max_entries ts) ts (seen_ids sets req.starting_token),
  seen_ids-none sets req.starting_token,
)

module _ {W : Type 0} (c : Client W) where
  -- ListVolumes panics exactly when the request has no starting token, the login succeeds, and
  -- the NAS answers with one target or more.
  pub list_volumes_panics_iff :
      (libs : Libraries) (req : ListVolumesRequest) (w : W)
      → ((list_volumes c libs req w).0 ≡ panics) ↔ (
          (is_blank req.starting_token ≡ true)
          × ((c.login w).0 ≡ ok tt)
          × ((ts : List StorageIscsiTargetInfo) × ((c.get_storage_iscsi_target_list (c.login w).1).0
                ≡ ok ts)
              × (ts ≢ [])))
  unfolding list_volumes
  list_volumes_panics_iff libs req w = (
    λ h. (
      ground (arith, page_of-panics libs.ints req (listed c w)),
      ground (arith, page_of-panics libs.ints req (listed c w)),
      (
        listed c w,
        ground (arith, page_of-panics libs.ints req (listed c w)),
        ground (arith, page_of-panics libs.ints req (listed c w)),
      ),
    ),
    λ (blank, logged_in, (ts, listed, some_target)).
        ground (arith, page_of-panics libs.ints req ts),
  )
