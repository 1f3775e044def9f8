-- ===== src/Driver/Create.antt =====
-- CreateVolume of driver/controller.go. Log lines and the second's sleep between two looks at the
-- LUN are left out.
pub mod Resources
pub mod Wait
pub mod Taken
pub mod Replies
pub mod Healthy
pub mod Refines
pub mod Distinct
pub mod Guarded
pub mod Listed
pub mod Reply
pub mod Valid
pub mod Complete
use qnap_csi.Base.{
  ℕ, zero, suc, ◌/◌, Bool, true, false, Option, none, some, List, [], ◌∷◌, ◌++◌, Text, lit, text_eq,
  is_blank, Result, ok, err, ltb, if◌then◌else◌,
}
use qnap_csi.Base.Int.{ℤ, pos, negsuc}
use qnap_csi.Go.Strings.{join}
use qnap_csi.Size.{CapacityRange, extract_storage}
use qnap_csi.Size.Format.{gi_b}
use qnap_csi.Name.{clean_iscsi_name}
use qnap_csi.Qnap.Types.{StorageIscsiTargetInfo, StorageIscsiBlockLun, lun_status_string}
use qnap_csi.Qnap.Client.{Client}
use qnap_csi.Driver.Handler.{
  Handler, Outcome, reply, status, still_waiting, invalid_argument, out_of_range, internal,
  already_exists, ◌>>=◌, ◌>>◌, pure, fail, call, call_or, ignore,
}
use qnap_csi.Driver.Capabilities.{VolumeCapability, validate_capabilities}
use qnap_csi.Driver.Config.{Config, Libraries}

pub record CreateVolumeRequest : Type 0 where
  pub name : Text
  pub volume_capabilities : Option (List VolumeCapability)
  pub capacity_range : Option CapacityRange

pub record Volume : Type 0 where
  pub volume_id : Text
  pub capacity_bytes : ℤ
  pub volume_context : List (Text × Text)

-- The name of the volume on the NAS, and its size in bytes.
pub record Plan : Type 0 where
  pub name : Text
  pub size : ℤ

-- The target and the LUN of a volume.
pub record Pieces : Type 0 where
  pub target : ℤ
  pub lun : ℤ

-- Go's division by a positive number, which rounds to zero.
pub quotient : ℤ → ℕ → ℤ
quotient (pos n) d = pos (n / d)
quotient (negsuc n) d = elim (suc n / d) [ zero ↦ pos 0 | suc m ↦ negsuc m ]

sized : Text → Result ℤ → Outcome Plan
sized name (err e) = status out_of_range (lit "invalid capacity range: " ++ e)
sized name (ok size) = reply (record { name = clean_iscsi_name name; size = size })

check_size : Text → Option CapacityRange → Outcome Plan
unfolding sized
check_size name range = sized name (extract_storage range)

check_violations : List Text → Text → Option CapacityRange → Outcome Plan
check_violations [] name range = check_size name range
check_violations (v ∷ vs) name range =
    status invalid_argument
      (lit "volume capabilities cannot be satisified: " ++ join (v ∷ vs) (lit "; "))

check_capabilities :
    Libraries → Option (List VolumeCapability) → Text → Option CapacityRange → Outcome Plan
check_capabilities libs none name range =
    status invalid_argument (lit "CreateVolume Volume capabilities must be provided")
check_capabilities libs (some []) name range =
    status invalid_argument (lit "CreateVolume Volume capabilities must be provided")
check_capabilities libs (some (c ∷ cs)) name range =
    check_violations (validate_capabilities libs.modes libs.strings (c ∷ cs)) name range

-- The checks before the first call of the NAS.
pub check_request : Libraries → CreateVolumeRequest → Outcome Plan
check_request libs req =
    if is_blank req.name
    then status invalid_argument (lit "CreateVolume Name must be provided")
    else check_capabilities libs req.volume_capabilities req.name req.capacity_range

unfoldable pub has_target : Text → List StorageIscsiTargetInfo → Bool
has_target name [] = false
has_target name (t ∷ ts) =
    let rest = has_target name ts in if text_eq t.name name then true else rest

-- The IQN of the first target of the name, "" if there is none.
pub iqn_of : Text → List StorageIscsiTargetInfo → Text
iqn_of name [] = []
iqn_of name (t ∷ ts) = let rest = iqn_of name ts in if text_eq t.name name then t.iqn else rest

unfoldable pub volume_of : Config → Plan → Text → Volume
volume_of d plan iqn = record {
  volume_id = plan.name;
  capacity_bytes = plan.size;
  volume_context =
      (lit "targetPortal", d.portal)
      ∷ (lit "iqn", iqn)
      ∷ (lit "lun", lit "0")
      ∷ (lit "portals", lit "[]")
      ∷ [];
}

abbrev pub login_failed : Text
login_failed = lit "Failed to login to NAS"

abbrev pub list_failed : Text
list_failed = lit "Failed to get list of ISCSI targets"

abbrev pub readiness_failed : Text
readiness_failed = lit "Failed to get ISCSI Block based LUN readiness"

abbrev pub iqn_failed : Text
iqn_failed = lit "Failed to get ISCSI IQN"

module _ {W : Type 0} (c : Client W) where
  -- Logs in, and refuses a name that is taken.
  pub admit : Plan → Handler W (Unit {0})
  admit plan = do
    call c.login login_failed
    targets ← call c.get_storage_iscsi_target_list list_failed
    if has_target plan.name targets
        then fail already_exists (lit "Volume already exists")
        else pure tt

  -- The target, its initiator and the LUN.
  pub provision : Config → Plan → Handler W Pieces
  provision d plan = do
    target ←
        call (c.create_storage_iscsi_target plan.name false false true)
          (lit "Failed to create ISCSI target")
    call_or (c.create_storage_iscsi_initiator target false [] [] false [] [])
        (ignore (c.delete_storage_iscsi_target target)) (lit "Failed to create ISCSI initator")
    block ←
        call_or
          (c.create_storage_iscsi_block_lun plan.name d.storage_pool_id (quotient plan.size gi_b)
            false (pos 512) false false false false)
          (ignore (c.delete_storage_iscsi_target target))
          (lit "Failed to create ISCSI Block based LUN")
    pure (record { target = target; lun = block.result })

  -- The loop that waits for the LUN; one unit of fuel for each look.
  pub wait_for_lun : ℕ → ℤ → Handler W (Unit {0})
  wait_for_lun zero lun w = (still_waiting, w)
  wait_for_lun (suc fuel) lun w =
      let rest = wait_for_lun fuel lun in
      (call (c.get_storage_iscsi_lun lun) readiness_failed >>= λ info.
      if text_eq (lun_status_string info.status) (lit "creating") then rest else pure tt)
        w

  -- Joins the LUN to the target, and looks up the IQN.
  pub publish : Config → Plan → Pieces → Handler W Volume
  publish d plan pieces = do
    call_or (c.attach_storage_iscsi_target_lun pieces.lun pieces.target)
        (λ w.
          ignore (c.delete_storage_iscsi_block_lun pieces.lun false)
            (ignore (c.delete_storage_iscsi_target pieces.target) w))
        (lit "Failed to associate LUN with ISCSI target")
    targets ← call c.get_storage_iscsi_target_list list_failed
    let iqn = iqn_of plan.name targets
    if is_blank iqn then fail internal iqn_failed else pure (volume_of d plan iqn)

  pub create_volume : Libraries → Config → ℕ → CreateVolumeRequest → Handler W Volume
  create_volume libs d fuel req = do
    plan ← (λ w. (check_request libs req, w))
    admit plan
    pieces ← provision d plan
    wait_for_lun fuel pieces.lun
    publish d plan pieces
