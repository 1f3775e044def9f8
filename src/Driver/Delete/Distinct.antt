-- ===== src/Driver/Delete/Distinct.antt =====
-- DeleteVolume never has a name stand twice on the NAS.
use qnap_csi.Base.{Bool-cases, inl, inr, false, List, [], ◌∷◌, Text, text_eq, is_blank}
use qnap_csi.Base.Int.{ℤ}
use qnap_csi.Qnap.Types.{StorageIscsiTargetInfo}
use qnap_csi.Qnap.Client.{Client}
use qnap_csi.Qnap.Contract.{Contract, AreDistinct}
use qnap_csi.Qnap.Contract.Distinct.{deleted-AreDistinct}
use qnap_csi.Driver.Handler.{Ends, Ends-call}
use qnap_csi.Driver.Create.{login_failed, list_failed}
use qnap_csi.Driver.Create.Distinct.{distinct}
use qnap_csi.Driver.Delete.{delete_luns, delete_target, delete_first, delete_volume}

module _ {W : Type 0} (c : Client W) (K : Contract c) where
  delete_luns-distinct :
      (luns : List ℤ) (w : W)
      → AreDistinct (K.volumes w)
      → Ends (distinct c K) (delete_luns c luns w)
  unfolding delete_luns
  delete_luns-distinct [] w d = d
  delete_luns-distinct (lun ∷ luns) w d =
      let d' : AreDistinct (K.volumes (c.delete_storage_iscsi_block_lun lun false w).1) =
        rw (K.delete_lun lun false w) d in
      Ends-call (distinct c K) (c.delete_storage_iscsi_block_lun lun false) _ _ w
        (λ _ _. delete_luns-distinct luns _ d') (λ _ _. d')

  delete_first-distinct :
      (name : Text) (ts : List StorageIscsiTargetInfo) (w : W)
      → AreDistinct (K.volumes w)
      → Ends (distinct c K) (delete_first c name ts w)
  unfolding delete_first delete_target
  delete_first-distinct name [] w d = d
  delete_first-distinct name (t ∷ ts) w d = elim (Bool-cases (text_eq t.name name)) [
    | inl same ↦ rw same (
        Ends-call (distinct c K) (c.delete_storage_iscsi_target t.target_index) _ _ w
          (λ _ _. delete_luns-distinct t.target_luns _ (deleted-AreDistinct c K t.target_index w d))
          (λ _ _. deleted-AreDistinct c K t.target_index w d))
    | inr other ↦ rw other (delete_first-distinct name ts w d)
  ]

  pub delete_volume-distinct :
      (id : Text) (w : W) → AreDistinct (K.volumes w) → Ends (distinct c K) (delete_volume c id w)
  unfolding delete_volume
  delete_volume-distinct id w d = elim (Bool-cases (is_blank id)) [
    | inl blank ↦ rw blank d
    | inr given ↦ rw given (
        Ends-call (distinct c K) c.login login_failed _ w
          (λ _ _.
            Ends-call (distinct c K) c.get_storage_iscsi_target_list list_failed _ (c.login w).1
              (λ ts _. delete_first-distinct id ts _ listed) (λ _ _. listed))
          (λ _ _. logged_in))
  ]
    where
      logged_in : AreDistinct (K.volumes (c.login w).1)
      logged_in = rw (K.login w) d

      listed : AreDistinct (K.volumes (c.get_storage_iscsi_target_list (c.login w).1).1)
      listed = rw (K.list (c.login w).1) logged_in
