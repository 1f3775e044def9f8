-- ===== src/Driver/Delete/Refines.antt =====
-- DeleteVolume as the removal of a name from the volumes of the NAS.
use mathlib.Core.Path.{subst}
use qnap_csi.Base.{
  ◌≡◌, refl, sym, ap, ◌∙◌, inl, inr, false, Bool-cases, Option, none, some, List, [], ◌∷◌, Text,
  text_eq, is_blank,
}
use qnap_csi.Base.Int.{ℤ}
use qnap_csi.Qnap.Types.{StorageIscsiTargetInfo}
use qnap_csi.Qnap.Client.{Client}
use qnap_csi.Qnap.Contract.{Contract, Volumes, volumes_of, AreDistinct, without_index, without_name}
use qnap_csi.Qnap.Contract.Removal.{first_index, without_name-none, without_name-some}
use qnap_csi.Driver.Handler.{Ending, Ends, Ends-call}
use qnap_csi.Driver.Create.{login_failed, list_failed}
use qnap_csi.Driver.Delete.{delete_luns, delete_target, delete_first, delete_volume}

module _ {W : Type 0} (c : Client W) (K : Contract c) where
  -- At a reply the volumes are these.
  abbrev pub leaves : Volumes → Ending W (Unit {0})
  leaves vs = record {
    at_reply = λ _ w. K.volumes w ≡ vs;
    at_status = λ _ _ _. Unit;
    at_wait = λ _. ⊥;
  }

  delete_luns-leaves :
      (luns : List ℤ) (vs : Volumes) (w : W)
      → K.volumes w ≡ vs
      → Ends (leaves vs) (delete_luns c luns w)
  unfolding delete_luns
  delete_luns-leaves [] vs w e = e
  delete_luns-leaves (lun ∷ luns) vs w e =
      Ends-call (leaves vs) (c.delete_storage_iscsi_block_lun lun false) _ _ w
        (λ _ _. delete_luns-leaves luns vs _ (K.delete_lun lun false w ∙ e)) (λ _ _. tt)

  -- The first target of the name among those that are looked through.
  removed : Option ℤ → Volumes → Volumes
  removed none vs = vs
  removed (some i) vs = without_index i vs

  delete_first-leaves :
      (name : Text) (ts : List StorageIscsiTargetInfo) (w : W)
      → Ends
          (leaves (removed (first_index name (volumes_of ts)) (K.volumes w)))
          (delete_first c name ts w)
  unfolding delete_first delete_target removed
  delete_first-leaves name [] w = refl
  delete_first-leaves name (t ∷ ts) w = elim (Bool-cases (text_eq t.name name)) [
    | inl same ↦ rw same (
        Ends-call (leaves (without_index t.target_index (K.volumes w)))
          (c.delete_storage_iscsi_target t.target_index) _ _ w
          (λ _ done.
            delete_luns-leaves t.target_luns (without_index t.target_index (K.volumes w)) _
              (K.delete_target t.target_index w done))
          (λ _ _. tt))
    | inr other ↦ rw other (delete_first-leaves name ts w)
  ]

  removed-name :
      (name : Text) (vs : Volumes) (o : Option ℤ)
      → AreDistinct vs
      → first_index name vs ≡ o
      → removed o vs ≡ without_name name vs
  unfolding removed
  removed-name name vs none d e = sym (without_name-none name vs e)
  removed-name name vs (some i) d e = sym (without_name-some name vs i d e)

  -- For a NAS that keeps the contract, with volumes of which no index and no name stands twice: at a
  -- reply to DeleteVolume the volumes are those from before without the one that has the id as its
  -- name, all of them if none has it.
  pub delete_volume-refines :
      (id : Text) (w : W)
      → AreDistinct (K.volumes w)
      → Ends (leaves (without_name id (K.volumes w))) (delete_volume c id w)
  unfolding delete_volume
  delete_volume-refines id w d = elim (Bool-cases (is_blank id)) [
    | inl blank ↦ rw blank tt
    | inr given ↦ rw given (
        Ends-call E c.login login_failed _ w
          (λ _ _.
            Ends-call E c.get_storage_iscsi_target_list list_failed _ (c.login w).1
              (λ ts told. found ts (K.listed (c.login w).1 ts told ∙ K.login w)) (λ _ _. tt))
          (λ _ _. tt))
  ]
    where
      E : Ending W (Unit {0})
      E = leaves (without_name id (K.volumes w))

      w' : W
      w' = (c.get_storage_iscsi_target_list (c.login w).1).1

      unchanged : K.volumes w' ≡ K.volumes w
      unchanged = K.list (c.login w).1 ∙ K.login w

      found :
          (ts : List StorageIscsiTargetInfo)
          → volumes_of ts ≡ K.volumes w
          → Ends E (delete_first c id ts w')
      found ts e =
          subst (λ vs. Ends (leaves vs) (delete_first c id ts w'))
            (ap (λ vs. removed (first_index id vs) (K.volumes w')) e
              ∙ ap (removed (first_index id (K.volumes w))) unchanged
              ∙ removed-name id (K.volumes w) (first_index id (K.volumes w)) d refl)
            (delete_first-leaves id ts w')
