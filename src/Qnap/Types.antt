-- ===== src/Qnap/Types.antt =====
-- The answers of the NAS, as the structs of qnap/api.go, and the texts of their states.
use qnap_csi.Base.{ℕ, List, ◌++◌, Text, lit, text_eq, if◌then◌else◌}
use qnap_csi.Base.Int.{ℤ}

pub record StoragePoolSubscriptionInfo : Type 0 where
  pub pool_id : ℤ
  pub capacity_bytes : ℕ
  pub freesize_bytes : ℕ
  pub max_thick_create_size_bytes : ℕ
  pub thin_volume_total : ℕ
  pub thin_lun_total : ℕ
  pub thick_volume_total : ℕ
  pub thick_lun_total : ℕ
  pub vault_total : ℕ
  pub snapshot_bytes : ℕ

pub record LogicalVolumeInfo : Type 0 where
  pub index : Text
  pub status : Text
  pub label : Text
  pub lun_index : Text
  pub type : Text
  pub static_volume : Text
  pub storage_pool_id : Text
  pub virtual_jbod : Text
  pub ui_type : Text
  pub logical_volume_type : Text
  pub metadata_size : Text
  pub encrypt_fs_enabled : Text
  pub encrypt_fs_active : Text
  pub cache_vol_is_converting : Text
  pub unclean : Text
  pub needs_rehash : Text
  pub creating : Text
  pub base_id : Text
  pub mapping_name : Text

-- LogicalVolumeInfoXML.VolumeTypeString
pub volume_type_string : Text → Text
volume_type_string kind =
    if text_eq kind (lit "1")
    then lit "Thick Volume"
    else if text_eq kind (lit "3")
    then lit "Block-based Thick LUN"
    else lit "Unknown ID " ++ kind

pub record StorageLogicalVolumes : Type 0 where
  pub result : Text
  pub volume_creating_process : ℤ
  pub volumes : List LogicalVolumeInfo

pub record StorageIscsiLunTarget : Type 0 where
  pub target_index : Text
  pub lun_number : Text
  pub lun_enable : Text

pub record StorageIscsiLunInitiator : Type 0 where
  pub initiator_index : Text
  pub initiator_iqn : Text
  pub access_mode : Text

pub record StorageIscsiLun : Type 0 where
  pub auth_passed : Text
  pub result : Text
  pub index : Text
  pub name : Text
  pub path : Text
  pub vol_free : Text
  pub capacity : Text
  pub status : Text
  pub op_percent : Text
  pub enable : Text
  pub thin_allocate : Text
  pub is_removing : Text
  pub b_map : Text
  pub serial_num : Text
  pub backup_status : Text
  pub is_snap : Text
  pub capacity_bytes : Text
  pub volume_base : Text
  pub virtual_based : Text
  pub virtual_disk_name : Text
  pub wc_enable : Text
  pub fua_enable : Text
  pub threshold : Text
  pub naa : Text
  pub sector_size : Text
  pub ssd_cache : Text
  pub storage_pool_id : Text
  pub volume_number : Text
  pub pool_type : Text
  pub snapshot_count : Text
  pub logical_volume_capacity : Text
  pub logical_volume_allocated : Text
  pub block_base_used_percent : Text
  pub block_size : Text
  pub file_base_used_percent : Text
  pub targets : List StorageIscsiLunTarget
  pub initiators : List StorageIscsiLunInitiator

-- StorageISCSILUNRespXML.StatusString
unfoldable pub lun_status_string : Text → Text
lun_status_string status =
    if text_eq status (lit "-1")
    then lit "removing"
    else if text_eq status (lit "-2")
    then lit "not_found"
    else if text_eq status (lit "0")
    then lit "creating"
    else if text_eq status (lit "1")
    then lit "ready"
    else lit "unknown LUN status " ++ status

pub record StorageIscsiTargetInitConnInfo : Type 0 where
  pub connection_type : Text
  pub initiator_iqn : Text
  pub ip : Text
  pub connection_status : Text
  pub server_name : Text

pub record StorageIscsiTargetInfo : Type 0 where
  pub target_index : ℤ
  pub name : Text
  pub iqn : Text
  pub alias : Text
  pub status : Text
  pub target_luns : List ℤ
  pub initiator_connections : List StorageIscsiTargetInitConnInfo

-- StorageISCSITargetInfoXML.StatusString
unfoldable pub target_status_string : Text → Text
target_status_string status =
    if text_eq status (lit "-1")
    then lit "offline"
    else if text_eq status (lit "0")
    then lit "ready"
    else if text_eq status (lit "1")
    then lit "connected"
    else lit "unknown status " ++ status

pub record StorageIscsiBlockLun : Type 0 where
  pub auth_passed : Text
  pub result : ℤ
  pub volume_id : ℤ
