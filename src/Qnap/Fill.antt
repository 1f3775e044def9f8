-- ===== src/Qnap/Fill.antt =====
-- The structs of qnap/api.go, filled from a document by their xml tags.
use Prim.Native.String.{String}
use qnap_csi.Base.{List, [], ◌∷◌, map, Text, lit, Result, ok}
use qnap_csi.Base.Int.{ℤ}
use qnap_csi.Go.Xml.{Element, at_path, string_at, int_at, uint_at, each}
use qnap_csi.Go.Strings.{trim_left, trim_right}
use qnap_csi.Qnap.Types.{
  StoragePoolSubscriptionInfo, LogicalVolumeInfo, StorageLogicalVolumes, StorageIscsiLunTarget,
  StorageIscsiLunInitiator, StorageIscsiLun, StorageIscsiTargetInitConnInfo, StorageIscsiTargetInfo,
  StorageIscsiBlockLun,
}
use qnap_csi.Qnap.Session.{◌>>=◌}

abbrev child : Element → String → Text
child e tag = string_at (lit tag ∷ []) e

pool_text : String → List Text
pool_text tag = lit "PoolSubscription" ∷ lit tag ∷ []

pub pool_of : Element → Result StoragePoolSubscriptionInfo
unfolding pool_text
pool_of e = do
  pool_id ← int_at (pool_text "poolID") e
  capacity ← uint_at (pool_text "capacity_bytes") e
  freesize ← uint_at (pool_text "freesize_bytes") e
  max_thick ← uint_at (pool_text "max_thick_create_size_bytes") e
  thin_volume ← uint_at (pool_text "thinVolTotal") e
  thin_lun ← uint_at (pool_text "thinLUNTotal") e
  thick_volume ← uint_at (pool_text "thickVolTotal") e
  thick_lun ← uint_at (pool_text "thickLUNTotal") e
  vault ← uint_at (pool_text "vaultTotal") e
  snapshot ← uint_at (pool_text "snapshot_bytes") e
  ok (record {
    pool_id = pool_id;
    capacity_bytes = capacity;
    freesize_bytes = freesize;
    max_thick_create_size_bytes = max_thick;
    thin_volume_total = thin_volume;
    thin_lun_total = thin_lun;
    thick_volume_total = thick_volume;
    thick_lun_total = thick_lun;
    vault_total = vault;
    snapshot_bytes = snapshot;
  })

logical_volume_of : Element → LogicalVolumeInfo
logical_volume_of e = record {
  index = child e "vol_no";
  status = child e "vol_status";
  label = child e "vol_label";
  lun_index = child e "LUNIndex";
  type = child e "volume_type";
  static_volume = child e "static_volume";
  storage_pool_id = child e "poolID";
  virtual_jbod = child e "pool_vjbod";
  ui_type = child e "volume_ui_type";
  logical_volume_type = child e "lv_type";
  metadata_size = child e "tp_metadata_size";
  encrypt_fs_enabled = child e "encryptfs_bool";
  encrypt_fs_active = child e "encryptfs_active_bool";
  cache_vol_is_converting = child e "cache_vol_is_converting";
  unclean = child e "unclean";
  needs_rehash = child e "need_rehash";
  creating = child e "creating";
  base_id = child e "baseID";
  mapping_name = child e "mappingName";
}

pub logical_volumes_of : Element → Result StorageLogicalVolumes
unfolding logical_volume_of
logical_volumes_of e = do
  creating ← int_at (lit "vol_creating_process" ∷ []) e
  ok (record {
    result = child e "result";
    volume_creating_process = creating;
    volumes = map logical_volume_of (at_path (lit "Volume_Index" ∷ lit "row" ∷ []) e);
  })

lun_target_of : Element → StorageIscsiLunTarget
lun_target_of e = record {
  target_index = child e "targetIndex";
  lun_number = child e "LUNNumber";
  lun_enable = child e "LUNEnable";
}

lun_initiator_of : Element → StorageIscsiLunInitiator
lun_initiator_of e = record {
  initiator_index = child e "initiatorIndex";
  initiator_iqn = child e "initiatorIQN";
  access_mode = child e "accessMode";
}

lun_path : List Text → List Text
lun_path path = lit "LUNInfo" ∷ lit "row" ∷ path

lun_text : Element → String → Text
lun_text e tag = string_at (lun_path (lit tag ∷ [])) e

-- strings.Trim(capacity, "\n")
trim_newlines : Text → Text
trim_newlines s = trim_right (trim_left s 10) 10

pub lun_of : Element → StorageIscsiLun
unfolding lun_text lun_path trim_newlines lun_target_of lun_initiator_of
lun_of e = record {
  auth_passed = string_at (lit "authPassed" ∷ []) e;
  result = string_at (lit "result" ∷ []) e;
  index = lun_text e "LUNIndex";
  name = lun_text e "LUNName";
  path = lun_text e "LUNPath";
  vol_free = lun_text e "LUNVolFree";
  capacity = trim_newlines (lun_text e "LUNCapacity");
  status = lun_text e "LUNStatus";
  op_percent = lun_text e "LUNOPPercent";
  enable = lun_text e "LUNEnable";
  thin_allocate = lun_text e "LUNThinAllocate";
  is_removing = lun_text e "isRemoving";
  b_map = lun_text e "bMap";
  serial_num = lun_text e "LUNSerialNum";
  backup_status = lun_text e "LUNBackupStatus";
  is_snap = lun_text e "isSnap";
  capacity_bytes = lun_text e "capacity_bytes";
  volume_base = lun_text e "VolumeBase";
  virtual_based = lun_text e "virtual_based";
  virtual_disk_name = lun_text e "virtual_disk_name";
  wc_enable = lun_text e "WCEnable";
  fua_enable = lun_text e "FUAEnable";
  threshold = lun_text e "LUNThreshold";
  naa = lun_text e "LUNNAA";
  sector_size = lun_text e "LUNSectorSize";
  ssd_cache = lun_text e "ssd_cache";
  storage_pool_id = lun_text e "poolID";
  volume_number = lun_text e "volno";
  pool_type = lun_text e "pool_type";
  snapshot_count = lun_text e "snapshot_count";
  logical_volume_capacity = lun_text e "lv_capacity";
  logical_volume_allocated = lun_text e "lv_allocated";
  block_base_used_percent = lun_text e "block_base_used_percent";
  block_size = lun_text e "block_size";
  file_base_used_percent = lun_text e "file_base_used_percent";
  targets = map lun_target_of (at_path (lun_path (lit "LUNTargetList" ∷ lit "row" ∷ [])) e);
  initiators =
      map lun_initiator_of (at_path (lun_path (lit "LUNInitList" ∷ lit "LUNInitInfo" ∷ [])) e);
}

connection_of : Element → StorageIscsiTargetInitConnInfo
connection_of e = record {
  connection_type = child e "connection_type";
  initiator_iqn = child e "initiatorIQN";
  ip = child e "IP";
  connection_status = child e "connection_status";
  server_name = child e "server_name";
}

-- An item of a slice of int.
lun_index_of : Element → Result ℤ
lun_index_of e = int_at [] e

target_of : Element → Result StorageIscsiTargetInfo
unfolding connection_of lun_index_of
target_of e = do
  index ← int_at (lit "targetIndex" ∷ []) e
  luns ← each lun_index_of (at_path (lit "targetLUNList" ∷ lit "LUNIndex" ∷ []) e)
  ok (record {
    target_index = index;
    name = child e "targetName";
    iqn = child e "targetIQN";
    alias = child e "targetAlias";
    status = child e "targetStatus";
    target_luns = luns;
    initiator_connections =
        map connection_of (at_path (lit "initiatorConnList" ∷ lit "initiatorConnInfo" ∷ []) e);
  })

pub targets_of_list : Element → Result (List StorageIscsiTargetInfo)
unfolding target_of
targets_of_list e = each target_of (at_path (lit "iSCSITargetList" ∷ lit "targetInfo" ∷ []) e)

unfoldable pub block_lun_of : Element → Result StorageIscsiBlockLun
block_lun_of e = do
  result ← int_at (lit "result" ∷ []) e
  volume ← int_at (lit "volumeID" ∷ []) e
  ok (record { auth_passed = child e "authPassed"; result = result; volume_id = volume })
