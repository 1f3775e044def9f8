-- ===== src/Examples/Nas.antt =====
-- A NAS in memory: the targets that it has, of which no call fails, and what the examples ask it.
use qnap_csi.Base.{
  some, map, List, [], ◌∷◌, ◌++◌, Text, lit, text_eq, refl, ok, if◌then◌else◌, IsFinSet, list_set,
  ℕ, suc, ◌+◌,
}
use qnap_csi.Base.Int.{ℤ, pos, pos_part, eq_ℤ}
use qnap_csi.Qnap.Types.{StoragePoolSubscriptionInfo, StorageIscsiLun, StorageIscsiTargetInfo}
use qnap_csi.Qnap.Client.{Client}
use qnap_csi.Driver.Capabilities.{Modes, VolumeCapability, mount}
use qnap_csi.Driver.Config.{Config, Libraries}
use qnap_csi.Driver.Create.{CreateVolumeRequest}

abbrev pub Nas : Type 0
Nas = List StorageIscsiTargetInfo

abbrev pub new_target : ℤ → Text → StorageIscsiTargetInfo
new_target index name = record {
  target_index = index;
  name = name;
  iqn = [];
  alias = name;
  status = lit "0";
  target_luns = [];
  initiator_connections = [];
}

-- Above the index of each target.
abbrev pub next_index : Nas → ℕ
next_index [] = 0
next_index (t ∷ ts) = suc (pos_part t.target_index + next_index ts)

-- The NAS gives each target an IQN.
abbrev pub with_iqn : StorageIscsiTargetInfo → StorageIscsiTargetInfo
with_iqn t = record t { iqn = lit "iqn.2004-04.com.qnap:" ++ t.name }

abbrev pub without : ℤ → Nas → Nas
without i [] = []
without i (t ∷ ts) = let rest = without i ts in if eq_ℤ t.target_index i then rest else t ∷ rest

abbrev pub with_lun : ℤ → ℤ → Nas → Nas
with_lun i lun [] = []
with_lun i lun (t ∷ ts) =
    let rest = with_lun i lun ts in
    if eq_ℤ t.target_index i then record t { target_luns = lun ∷ t.target_luns } ∷ ts else t ∷ rest

abbrev pub pool : StoragePoolSubscriptionInfo
pool = record {
  pool_id = pos 1;
  capacity_bytes = 1000;
  freesize_bytes = 900;
  max_thick_create_size_bytes = 900;
  thin_volume_total = 0;
  thin_lun_total = 0;
  thick_volume_total = 0;
  thick_lun_total = 0;
  vault_total = 0;
  snapshot_bytes = 0;
}

abbrev pub ready_lun : StorageIscsiLun
ready_lun = record {
  auth_passed = lit "1";
  result = lit "0";
  index = lit "7";
  name = [];
  path = [];
  vol_free = [];
  capacity = [];
  status = lit "1";
  op_percent = [];
  enable = [];
  thin_allocate = [];
  is_removing = [];
  b_map = [];
  serial_num = [];
  backup_status = [];
  is_snap = [];
  capacity_bytes = [];
  volume_base = [];
  virtual_based = [];
  virtual_disk_name = [];
  wc_enable = [];
  fua_enable = [];
  threshold = [];
  naa = [];
  sector_size = [];
  ssd_cache = [];
  storage_pool_id = [];
  volume_number = [];
  pool_type = [];
  snapshot_count = [];
  logical_volume_capacity = [];
  logical_volume_allocated = [];
  block_base_used_percent = [];
  block_size = [];
  file_base_used_percent = [];
  targets = [];
  initiators = [];
}

abbrev pub nas_client : Client Nas
nas_client = record {
  login = λ w. (ok tt, w);
  get_storage_pool_subscription = λ _ w. (ok pool, w);
  get_storage_iscsi_lun = λ _ w. (ok ready_lun, w);
  get_storage_iscsi_target_list = λ w. (ok (map with_iqn w), w);
  create_storage_iscsi_target =
      λ name _ _ _ w. let i = pos (next_index w) in (ok i, w ++ new_target i name ∷ []);
  create_storage_iscsi_initiator = λ _ _ _ _ _ _ _ w. (ok tt, w);
  delete_storage_iscsi_target = λ i w. (ok tt, without i w);
  create_storage_iscsi_block_lun = λ _ _ _ _ _ _ _ _ _ w.
      (ok (record { auth_passed = lit "1"; result = pos 7; volume_id = pos 7 }), w);
  delete_storage_iscsi_block_lun = λ _ _ w. (ok tt, w);
  attach_storage_iscsi_target_lun = λ lun i w. (ok tt, with_lun i lun w);
}

abbrev pub csi_modes : Modes
csi_modes = record { unknown = 0; single_node_writer = 1; name = λ _. lit "MULTI_NODE_READER_ONLY" }

abbrev pub libraries : Libraries
libraries = record { modes = csi_modes; strings = list_set text_eq; ints = list_set eq_ℤ }

pub strings-IsFinSet : IsFinSet (list_set text_eq)
strings-IsFinSet = record {
  to_list-empty = refl;
  contains-to_list = λ s a. refl;
  has-insert = λ s a b. refl;
}

pub ints-IsFinSet : IsFinSet (list_set eq_ℤ)
ints-IsFinSet = record {
  to_list-empty = refl;
  contains-to_list = λ s a. refl;
  has-insert = λ s a b. refl;
}

abbrev pub config : Config
config = record {
  name = lit "qnap.terrycain.github.com";
  version = lit "v0.1.0";
  storage_pool_id = pos 1;
  node_id = lit "node-1";
  portal = lit "10.0.0.2:3260";
  config_dir = lit "/config";
}

abbrev pub writer : VolumeCapability
writer = record { access_mode = some 1; access_type = mount }

-- 5 GiB.
abbrev pub request : CreateVolumeRequest
request = record {
  name = lit "pvc-1";
  volume_capabilities = some (writer ∷ []);
  capacity_range = some (record { required_bytes = pos 5368709120; limit_bytes = pos 0 });
}

abbrev pub two_targets : Nas
two_targets =
    with_lun (pos 1) (pos 4) (new_target (pos 0) (lit "a1") ∷ new_target (pos 1) (lit "b2") ∷ [])
