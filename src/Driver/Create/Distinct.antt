-- ===== src/Driver/Create/Distinct.antt =====
-- CreateVolume never has a name stand twice on the NAS.
use qnap_csi.Base.{ℕ, ◌≡◌, sym, ap, ◌∙◌, true, false, Text}
use qnap_csi.Name.{clean_iscsi_name}
use qnap_csi.Qnap.Client.{Client}
use qnap_csi.Qnap.Contract.{Contract, AreDistinct, has_name}
use qnap_csi.Qnap.Contract.Distinct.{deleted-AreDistinct, created-AreDistinct}
use qnap_csi.Driver.Handler.{Ending, Ends}
use qnap_csi.Driver.Config.{Config, Libraries}
use qnap_csi.Driver.Create.{CreateVolumeRequest, create_volume}
use qnap_csi.Driver.Create.Guarded.{Guard, always, create_volume-guarded}
use qnap_csi.Driver.Create.Refines.{has_target-has_name}

module _ {W : Type 0} (c : Client W) (K : Contract c) where
  -- At each end but a panic, of which there is none.
  abbrev pub distinct : {A : Type 0} → Ending W A
  distinct = always (λ w. AreDistinct (K.volumes w))

  distinct_guard : (name : Text) → Guard c name
  distinct_guard name = record {
    Inv = λ w. AreDistinct (K.volumes w);
    New = λ w. AreDistinct (K.volumes w) × (has_name name (K.volumes w) ≡ false);
    login = λ w d. rw (K.login w) d;
    list = λ w d. rw (K.list w) d;
    listed = λ w ts d told new. rw (K.list w) (
      d,
      sym (ap (has_name name) (K.listed w ts told)) ∙ sym (has_target-has_name name ts) ∙ new,
    );
    create_target = λ w (d, new). created-AreDistinct c K name false false true w d new;
    create_initiator = λ target w d. rw (K.create_initiator target w) d;
    create_lun = λ pool capacity w d. rw (K.create_lun name pool capacity w) d;
    look = λ lun w d. rw (K.look lun w) d;
    attach = λ lun target w d. rw (K.attach lun target w) d;
    delete_target = λ i w d. deleted-AreDistinct c K i w d;
    delete_lun = λ i w d. rw (K.delete_lun i false w) d;
  }

  pub create_volume-distinct :
      (libs : Libraries) (e : Config) (fuel : ℕ) (req : CreateVolumeRequest) (w : W)
      → AreDistinct (K.volumes w)
      → Ends distinct (create_volume c libs e fuel req w)
  unfolding distinct_guard
  create_volume-distinct libs e fuel req w d =
      create_volume-guarded c libs e req (distinct_guard (clean_iscsi_name req.name)) fuel w d
