-- ===== src/Driver/Calls/Pairs.antt =====
-- Two calls, one behind the other.
use qnap_csi.Base.{true, ◌≡◌, sym, ap, ◌∙◌, false, [], ◌∷◌, ◌++◌, Text, is_blank, ℕ}
use mathlib.Core.Path.{subst}
use qnap_csi.Qnap.Client.{Client}
use qnap_csi.Qnap.Contract.{Contract, volumes_of, AreDistinct, has_name, without_name}
use qnap_csi.Qnap.Contract.Distinct.{has_name-last, without_name-added, without_name-twice}
use qnap_csi.Driver.Handler.{
  reply, already_exists, Ending, Ends, both, both-Ends, errs, Never, Succeeds,
}
use qnap_csi.Driver.Config.{Config, Libraries}
use qnap_csi.Driver.Create.{CreateVolumeRequest, Volume, create_volume}
use qnap_csi.Driver.Create.Replies.{planned}
use qnap_csi.Driver.Create.Taken.{HasCode, create_volume_exists_iff}
use qnap_csi.Driver.Create.Listed.{HasNamed, has_target_iff}
use qnap_csi.Driver.Create.Valid.{passed-IsValid}
use qnap_csi.Driver.Create.Distinct.{distinct, create_volume-distinct}
use qnap_csi.Driver.Create.Refines.{has_target-has_name, adds, create_volume-refines}
use qnap_csi.Driver.Delete.{delete_volume}
use qnap_csi.Driver.Delete.Distinct.{delete_volume-distinct}
use qnap_csi.Driver.Delete.Healthy.{Healthy, delete_volume-errs}
use qnap_csi.Driver.Delete.Refines.{leaves, delete_volume-refines}

module _ {W : Type 0} (c : Client W) (K : Contract c) where
  -- Replies, and the volumes are these.
  abbrev pub replies_leaving : W → Ending W (Unit {0})
  replies_leaving w = both (leaves c K (K.volumes w)) (errs Never)

  -- For a NAS that keeps the contract, on which no index and no name stands twice and no call of
  -- DeleteVolume fails: when CreateVolume has replied with a volume of a nonblank id, DeleteVolume of
  -- that id replies, and the volumes are those from before.
  pub create_volume-delete_volume :
      (libs : Libraries) (d : Config) (fuel : ℕ) (req : CreateVolumeRequest) (v : Volume) (w w' : W)
      → Healthy c
      → AreDistinct (K.volumes w)
      → create_volume c libs d fuel req w ≡ (reply v, w')
      → is_blank v.volume_id ≡ false
      → Ends (replies_leaving w) (delete_volume c v.volume_id w')
  create_volume-delete_volume libs d fuel req v w w' healthy distinct_names made given =
      let (new, (i, added)) : Ends (adds c K w) (reply v, w') =
        subst (Ends (adds c K w)) made (create_volume-refines c K libs d fuel req w) in
      let apart : AreDistinct (K.volumes w') =
        subst (Ends (distinct c K)) made
          (create_volume-distinct c K libs d fuel req w distinct_names) in
      both-Ends (leaves c K (K.volumes w)) (errs Never) (delete_volume c v.volume_id w')
        (subst (λ vs. Ends (leaves c K vs) (delete_volume c v.volume_id w'))
          (ap (without_name v.volume_id) added ∙ without_name-added v.volume_id i (K.volumes w) new)
          (delete_volume-refines c K v.volume_id w' apart))
        (delete_volume-errs c healthy v.volume_id w' given)

  -- For a NAS that keeps the contract, on which no index and no name stands twice and where each call
  -- of DeleteVolume, the deletions included, succeeds: when DeleteVolume has replied, DeleteVolume of
  -- the same nonblank id replies again and leaves the volumes as they are.
  pub delete_volume-twice :
      (id : Text) (w w' : W)
      → Healthy c
      → AreDistinct (K.volumes w)
      → delete_volume c id w ≡ (reply tt, w')
      → is_blank id ≡ false
      → Ends (replies_leaving w') (delete_volume c id w')
  delete_volume-twice id w w' healthy distinct_names gone given =
      let left : K.volumes w' ≡ without_name id (K.volumes w) =
        subst (Ends (leaves c K (without_name id (K.volumes w)))) gone
          (delete_volume-refines c K id w distinct_names) in
      let apart : AreDistinct (K.volumes w') =
        subst (Ends (distinct c K)) gone (delete_volume-distinct c K id w distinct_names) in
      both-Ends (leaves c K (K.volumes w')) (errs Never) (delete_volume c id w')
        (subst (λ vs. Ends (leaves c K vs) (delete_volume c id w'))
          (ap (without_name id) left ∙ without_name-twice id (K.volumes w) ∙ sym left)
          (delete_volume-refines c K id w' apart))
        (delete_volume-errs c healthy id w' given)

module _ {W : Type 0} (c : Client W) (K : Contract c) where
  -- For a NAS that keeps the contract, and on which each login and each list of targets succeeds: when
  -- CreateVolume has replied, CreateVolume of the same request answers AlreadyExists.
  pub create_volume-twice :
      (libs : Libraries) (d : Config) (fuel fuel' : ℕ) (req : CreateVolumeRequest) (v : Volume)
      (w w' : W)
      → Succeeds c.login
      → Succeeds c.get_storage_iscsi_target_list
      → create_volume c libs d fuel req w ≡ (reply v, w')
      → HasCode already_exists (create_volume c libs d fuel' req w').0
  create_volume-twice libs d fuel fuel' req v w w' logins lists made =
      let (plan, passed, named) = planned c libs d fuel req v w w' made in
      let (valid, cleaned) = passed-IsValid libs req plan passed in
      let (new, (i, added)) : Ends (adds c K w) (reply v, w') =
        subst (Ends (adds c K w)) made (create_volume-refines c K libs d fuel req w) in
      let (x, logged_in) = logins w' in
      let (ts, told) = lists (c.login w').1 in
      let there : has_name plan.name (volumes_of ts) ≡ true =
        ap (has_name plan.name) (K.listed (c.login w').1 ts told ∙ K.login w' ∙ added)
        ∙ ap (λ n. has_name n (K.volumes w ++ (i, v.volume_id) ∷ [])) named
        ∙ has_name-last v.volume_id i (K.volumes w) in
      (create_volume_exists_iff c libs d fuel' req w').1 (
        valid,
        (
          logged_in,
          (
            ts,
            told,
            subst (λ n. HasNamed n ts) cleaned
                ((has_target_iff plan.name ts).0.0 (has_target-has_name plan.name ts ∙ there)),
          ),
        ),
      )
