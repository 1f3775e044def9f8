-- ===== src/Driver/Delete.antt =====
-- DeleteVolume of driver/controller.go.
pub mod Laws
pub mod Healthy
pub mod Refines
pub mod Distinct
use qnap_csi.Base.{Bool, false, List, [], ◌∷◌, Text, lit, text_eq, is_blank, if◌then◌else◌}
use qnap_csi.Base.Int.{ℤ}
use qnap_csi.Qnap.Types.{StorageIscsiTargetInfo}
use qnap_csi.Qnap.Client.{Client}
use qnap_csi.Driver.Handler.{Handler, invalid_argument, ◌>>=◌, ◌>>◌, pure, fail, call}
use qnap_csi.Driver.Create.{login_failed, list_failed}

module _ {W : Type 0} (c : Client W) where
  delete_luns : List ℤ → Handler W (Unit {0})
  delete_luns [] = pure tt
  delete_luns (lun ∷ luns) =
      let rest = delete_luns luns in
      call (c.delete_storage_iscsi_block_lun lun false)
        (lit "Failed to delete ISCSI Block based LUN")
      >> rest

  delete_target : StorageIscsiTargetInfo → Handler W (Unit {0})
  delete_target t =
      call (c.delete_storage_iscsi_target t.target_index) (lit "Failed to delete ISCSI target")
      >> delete_luns t.target_luns

  -- The loop over the targets, which ends at the first of the name.
  delete_first : Text → List StorageIscsiTargetInfo → Handler W (Unit {0})
  delete_first name [] = pure tt
  delete_first name (t ∷ ts) =
      let rest = delete_first name ts in if text_eq t.name name then delete_target t else rest

  pub delete_volume : Text → Handler W (Unit {0})
  delete_volume id =
      if is_blank id
      then fail invalid_argument (lit "DeleteVolume Volume ID must be provided")
      else do
        call c.login login_failed
        targets ← call c.get_storage_iscsi_target_list list_failed
        delete_first id targets
