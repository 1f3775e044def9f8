-- ===== src/Qnap/Api.antt =====
-- The methods of qnap.Client in qnap/api.go as HTTP exchanges with the NAS, and the client that
-- they make up. The helpers b2is and b2yn are those of qnap/utils.go.
pub mod Answers
use qnap_csi.Base.{
  Bool, List, [], ◌∷◌, ◌++◌, Text, lit, text_eq, not, Result, ok, err, if◌then◌else◌,
}
use qnap_csi.Base.Int.{ℤ, pos, ltb_ℤ, eq_ℤ}
use qnap_csi.Go.Decimal.{itoa}
use qnap_csi.Go.Url.{Values, encode_values}
use qnap_csi.Go.Xml.{Element, string_at, int_at}
use qnap_csi.Qnap.Types.{
  StoragePoolSubscriptionInfo, StorageLogicalVolumes, StorageIscsiLun, StorageIscsiTargetInfo,
  StorageIscsiBlockLun,
}
use qnap_csi.Qnap.Answer.{
  pool_answer, volumes_answer, lun_answer, targets_answer, create_target_answer,
  create_initiator_answer, block_lun_answer, done_answer,
}
use qnap_csi.Qnap.Client.{Method, Client}
use qnap_csi.Qnap.Session.{Request, Network, Account, Session, exchange, login, request_of, ◌>>=◌}
use qnap_csi.Qnap.Fill.{pool_of, logical_volumes_of, lun_of, targets_of_list, block_lun_of}

pub b2is : Bool → Text
b2is value = if value then lit "1" else lit "0"

pub b2yn : Bool → Text
b2yn value = if value then lit "yes" else lit "no"

background : Bool → Values → Values
background run_in_background params =
    if run_in_background then (lit "run_background", lit "1") ∷ params else params

module _ {W : Type 0} (net : Network W) (a : Account) where
  pub get_storage_pool_subscription : ℤ → Method (Session W) StoragePoolSubscriptionInfo
  get_storage_pool_subscription pool_id s =
      exchange net
        (request_of a.disk_manage_endpoint s.sid ((lit "store", lit "poolSubsc") ∷ []) (
          (lit "func", lit "extra_get")
          ∷ (lit "Pool_Subs", lit "1")
          ∷ (lit "poolID", itoa pool_id)
          ∷ []))
        pool_answer s

  pub get_storage_logical_volumes : Method (Session W) StorageLogicalVolumes
  get_storage_logical_volumes s =
      exchange net
        (request_of a.disk_manage_endpoint s.sid ((lit "store", lit "lvList") ∷ [])
          ((lit "func", lit "extra_get") ∷ (lit "extra_vol_index", lit "1") ∷ []))
        volumes_answer s

  pub get_storage_iscsi_lun : ℤ → Method (Session W) StorageIscsiLun
  get_storage_iscsi_lun lun_id s =
      exchange net
        (request_of a.iscsi_portal_endpoint s.sid
          ((lit "func", lit "extra_get")
            ∷ (lit "lun_info", lit "1")
            ∷ (lit "lunID", itoa lun_id)
            ∷ [])
          [])
        lun_answer s

  pub get_storage_iscsi_target_list : Method (Session W) (List StorageIscsiTargetInfo)
  get_storage_iscsi_target_list s =
      exchange net
        (request_of a.iscsi_portal_endpoint s.sid
          ((lit "func", lit "extra_get") ∷ (lit "targetList", lit "1") ∷ []) [])
        targets_answer s

  pub create_storage_iscsi_target : Text → Bool → Bool → Bool → Method (Session W) ℤ
  create_storage_iscsi_target name data_digest header_digest cluster_mode s =
      exchange net
        (request_of a.iscsi_target_settings_endpoint s.sid [] (
          (lit "func", lit "add_target")
          ∷ (lit "targetName", name)
          ∷ (lit "targetAlias", name)
          ∷ (lit "bTargetDataDigest", b2is data_digest)
          ∷ (lit "bTargetHeaderDigest", b2is header_digest)
          ∷ (lit "bTargetClusterEnable", b2is cluster_mode)
          ∷ []))
        create_target_answer s

  pub create_storage_iscsi_initiator :
      ℤ → Bool → Text → Text → Bool → Text → Text → Method (Session W) (Unit {0})
  create_storage_iscsi_initiator target chap user pass mutual_chap mutual_user mutual_pass s =
      exchange net
        (request_of a.iscsi_target_settings_endpoint s.sid [] (
          (lit "func", lit "add_init")
          ∷ (lit "targetIndex", itoa target)
          ∷ (lit "initiatorIndex", lit "0")
          ∷ (lit "bCHAPEnable", b2is chap)
          ∷ (lit "CHAPUserName", user)
          ∷ (lit "CHAPPasswd", pass)
          ∷ (lit "bMutualCHAPEnable", b2is mutual_chap)
          ∷ (lit "mutualCHAPUserName", mutual_user)
          ∷ (lit "mutualCHAPPasswd", mutual_pass)
          ∷ []))
        create_initiator_answer s

  pub delete_storage_iscsi_target : ℤ → Method (Session W) (Unit {0})
  delete_storage_iscsi_target target s =
      exchange net
        (request_of a.iscsi_target_settings_endpoint s.sid
          ((lit "func", lit "remove_target") ∷ (lit "targetIndex", itoa target) ∷ []) [])
        (done_answer target) s

  pub create_storage_iscsi_block_lun :
      Text → ℤ → ℤ → Bool → ℤ → Bool → Bool → Bool → Bool → Method (Session W) StorageIscsiBlockLun
  create_storage_iscsi_block_lun name pool capacity thin sector wc fua ssd tiering s =
      exchange net
        (request_of a.iscsi_lun_settings_endpoint s.sid [] (
          (lit "func", lit "add_lun")
          ∷ (lit "LUNThinAllocate", b2is thin)
          ∷ (lit "LUNName", name)
          ∷ (lit "LUNCapacity", itoa capacity)
          ∷ (lit "LUNSectorSize", itoa sector)
          ∷ (lit "WCEnable", b2is wc)
          ∷ (lit "FUAEnable", b2is fua)
          ∷ (lit "FileIO", lit "no")
          ∷ (lit "poolID", itoa pool)
          ∷ (lit "lv_ifssd", b2yn ssd)
          ∷ (lit "LUNPath", name)
          ∷ (lit "enable_tiering", b2is tiering)
          ∷ []))
        block_lun_answer s

  pub delete_storage_iscsi_block_lun : ℤ → Bool → Method (Session W) (Unit {0})
  unfolding background
  delete_storage_iscsi_block_lun lun run_in_background s =
      exchange net
        (request_of a.iscsi_lun_settings_endpoint s.sid
          ((lit "func", lit "remove_lun")
            ∷ background run_in_background ((lit "LUNIndex", itoa lun) ∷ []))
          [])
        (done_answer (pos 0)) s

  pub attach_storage_iscsi_target_lun : ℤ → ℤ → Method (Session W) (Unit {0})
  attach_storage_iscsi_target_lun lun target s =
      exchange net
        (request_of a.iscsi_target_settings_endpoint s.sid
          ((lit "func", lit "add_lun")
            ∷ (lit "LUNIndex", itoa lun)
            ∷ (lit "targetIndex", itoa target)
            ∷ [])
          [])
        (done_answer (pos 0)) s

  -- The methods that the driver calls.
  abbrev pub api_client : Client (Session W)
  api_client = record {
    login = login net a;
    get_storage_pool_subscription = get_storage_pool_subscription;
    get_storage_iscsi_lun = get_storage_iscsi_lun;
    get_storage_iscsi_target_list = get_storage_iscsi_target_list;
    create_storage_iscsi_target = create_storage_iscsi_target;
    create_storage_iscsi_initiator = create_storage_iscsi_initiator;
    delete_storage_iscsi_target = delete_storage_iscsi_target;
    create_storage_iscsi_block_lun = create_storage_iscsi_block_lun;
    delete_storage_iscsi_block_lun = delete_storage_iscsi_block_lun;
    attach_storage_iscsi_target_lun = attach_storage_iscsi_target_lun;
  }
