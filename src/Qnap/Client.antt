-- ===== src/Qnap/Client.antt =====
-- The operations of qnap.Client that the driver calls, as an interface over the state `W` of the
-- world: the NAS, the network and the client's session. qnap_csi.Qnap.Api implements it.
use qnap_csi.Base.{Bool, List, [], Text, Result, ok, err}
use qnap_csi.Base.Int.{ℤ}
use qnap_csi.Qnap.Types.{
  StoragePoolSubscriptionInfo, StorageIscsiLun, StorageIscsiTargetInfo, StorageIscsiBlockLun,
}

-- A method that returns a value or an error, and may change the world either way.
abbrev pub Method : Type 0 → Type 0 → Type 0
Method W A = W → Result A × W

pub record Client (W : Type 0) : Type 0 where
  pub login : Method W (Unit {0})
  pub get_storage_pool_subscription : ℤ → Method W StoragePoolSubscriptionInfo
  pub get_storage_iscsi_lun : ℤ → Method W StorageIscsiLun
  pub get_storage_iscsi_target_list : Method W (List StorageIscsiTargetInfo)
  pub create_storage_iscsi_target : Text → Bool → Bool → Bool → Method W ℤ
  pub create_storage_iscsi_initiator :
      ℤ → Bool → Text → Text → Bool → Text → Text → Method W (Unit {0})
  pub delete_storage_iscsi_target : ℤ → Method W (Unit {0})
  pub create_storage_iscsi_block_lun :
      Text → ℤ → ℤ → Bool → ℤ → Bool → Bool → Bool → Bool → Method W StorageIscsiBlockLun
  pub delete_storage_iscsi_block_lun : ℤ → Bool → Method W (Unit {0})
  pub attach_storage_iscsi_target_lun : ℤ → ℤ → Method W (Unit {0})

abbrev pub targets_of : Result (List StorageIscsiTargetInfo) → List StorageIscsiTargetInfo
targets_of (ok ts) = ts
targets_of (err e) = []

-- The targets that the NAS lists after the login, none if it does not answer.
abbrev pub listed : {W : Type 0} → Client W → W → List StorageIscsiTargetInfo
listed c w = targets_of (c.get_storage_iscsi_target_list (c.login w).1).0
