-- ===== src/Driver/Delete/Healthy.antt =====
-- DeleteVolume on a NAS where no call fails.
use qnap_csi.Base.{◌≡◌, Bool-cases, inl, inr, false, List, [], ◌∷◌, Text, text_eq, is_blank}
use qnap_csi.Base.Int.{ℤ}
use qnap_csi.Qnap.Types.{StorageIscsiTargetInfo}
use qnap_csi.Qnap.Client.{Client, listed}
use qnap_csi.Qnap.Ledger.{Event, recorded}
use qnap_csi.Driver.Handler.{Ends, both, both-Ends, errs, Never, Succeeds, Ends-succeeds}
use qnap_csi.Driver.Delete.{delete_luns, delete_target, delete_first, delete_volume}
use qnap_csi.Driver.Delete.Laws.{carried_out, deletions, delete_volume-carried_out}

module _ {W : Type 0} (c : Client W) where
  -- The calls of DeleteVolume succeed.
  pub record Healthy : Type 0 where
    pub login : Succeeds c.login
    pub list : Succeeds c.get_storage_iscsi_target_list
    pub target : (target : ℤ) → Succeeds (c.delete_storage_iscsi_target target)
    pub lun : (lun : ℤ) → Succeeds (c.delete_storage_iscsi_block_lun lun false)

module _ {W : Type 0} (c : Client W) (healthy : Healthy c) where
  delete_luns-errs : (luns : List ℤ) (w : W) → Ends (errs Never) (delete_luns c luns w)
  unfolding delete_luns
  delete_luns-errs [] w = tt
  delete_luns-errs (lun ∷ luns) w =
      Ends-succeeds (errs Never) (c.delete_storage_iscsi_block_lun lun false) _ _ _ w
        (healthy.lun lun) (λ _. delete_luns-errs luns _)

  delete_first-errs :
      (name : Text) (ts : List StorageIscsiTargetInfo) (w : W)
      → Ends (errs Never) (delete_first c name ts w)
  unfolding delete_first delete_target
  delete_first-errs name [] w = tt
  delete_first-errs name (t ∷ ts) w = elim (Bool-cases (text_eq t.name name)) [
    | inl same ↦ rw same (
        Ends-succeeds (errs Never) (c.delete_storage_iscsi_target t.target_index) _ _ _ w
          (healthy.target t.target_index) (λ _. delete_luns-errs t.target_luns _))
    | inr other ↦ rw other (delete_first-errs name ts w)
  ]

  pub delete_volume-errs :
      (id : Text) (w : W) → is_blank id ≡ false → Ends (errs Never) (delete_volume c id w)
  unfolding delete_volume
  delete_volume-errs id w given = rw given (
      Ends-succeeds (errs Never) c.login _ _ _ w healthy.login (λ _.
        Ends-succeeds (errs Never) c.get_storage_iscsi_target_list _ _ _ _ healthy.list
          (λ ts. delete_first-errs id ts _)))

recorded-Healthy : {W : Type 0} (c : Client W) → Healthy c → Healthy (recorded c)
recorded-Healthy c healthy = record {
  login = λ s. healthy.login s.0;
  list = λ s. healthy.list s.0;
  target = λ i s. healthy.target i s.0;
  lun = λ i s. healthy.lun i s.0;
}

module _ {W : Type 0} (c : Client W) (healthy : Healthy c) where
  -- On a NAS where no call of DeleteVolume fails, DeleteVolume of a nonblank id replies, and has
  -- asked to delete exactly the first listed target of that name and then each of its LUNs in
  -- turn, nothing if no target has the name.
  pub delete_volume_succeeds :
      (id : Text) (s : W × List Event)
      → is_blank id ≡ false
      → Ends
          (both (carried_out (deletions id (listed c s.0)) s.1) (errs Never))
          (delete_volume (recorded c) id s)
  delete_volume_succeeds id s given =
      both-Ends (carried_out (deletions id (listed c s.0)) s.1) (errs Never)
        (delete_volume (recorded c) id s) (delete_volume-carried_out c id s)
        (delete_volume-errs (recorded c) (recorded-Healthy c healthy) id s given)
