-- ===== src/Driver/Volumes.antt =====
-- ValidateVolumeCapabilities, GetCapacity, ControllerGetCapabilities and the calls of
-- driver/controller.go that are not implemented.
pub mod Confirmed
use qnap_csi.Base.{
  ℕ, ◌-◌, ◌^◌, Bool, Option, none, some, List, [], ◌∷◌, ◌++◌, Text, lit, is_blank, ltb,
  if◌then◌else◌,
}
use qnap_csi.Base.Int.{ℤ, pos, negsuc}
use qnap_csi.Size.{minimum_volume_size_in_bytes, maximum_volume_size_in_bytes}
use qnap_csi.Qnap.Client.{Client}
use qnap_csi.Driver.Handler.{
  Handler, invalid_argument, not_found, unimplemented, ◌>>=◌, ◌>>◌, pure, fail, call,
}
use qnap_csi.Driver.Capabilities.{VolumeCapability, no_access_type, supported_access_mode}
use qnap_csi.Driver.Config.{Config, Libraries}
use qnap_csi.Driver.Create.{has_target, login_failed, list_failed}

pub record CapacityResponse : Type 0 where
  pub available_capacity : ℤ
  pub maximum_volume_size : ℤ
  pub minimum_volume_size : ℤ

-- int64 of a uint64.
pub int64_of : ℕ → ℤ
int64_of n = if ltb n (2 ^ 63) then pos n else negsuc (2 ^ 64 - 1 - n)

pub data ControllerCapability : Type 0 where
  create_delete_volume list_volumes get_capacity : ControllerCapability

pub controller_get_capabilities : List ControllerCapability
controller_get_capabilities = create_delete_volume ∷ list_volumes ∷ get_capacity ∷ []

module _ {W : Type 0} (c : Client W) where
  confirm : Libraries → Text → Bool → Handler W (List VolumeCapability)
  confirm libs id found =
      if found
      then pure (
          record {
            access_mode = some (supported_access_mode libs.modes);
            access_type = no_access_type;
          }
          ∷ [])
      else fail not_found (lit "ValidateVolumeCapabilities Volume ID " ++ id ++ lit " not found")

  check_volume : Libraries → Text → Handler W (List VolumeCapability)
  check_volume libs id = do
    call c.login login_failed
    targets ← call c.get_storage_iscsi_target_list list_failed
    confirm libs id (has_target id targets)

  -- `none` is a request with no capabilities.
  pub validate_volume_capabilities :
      Libraries → Text → Option (List VolumeCapability) → Handler W (List VolumeCapability)
  validate_volume_capabilities libs id none =
      if is_blank id
      then fail invalid_argument (lit "ValidateVolumeCapabilities Volume ID must be provided")
      else fail invalid_argument
          (lit "ValidateVolumeCapabilities Volume Capabilities must be provided")
  validate_volume_capabilities libs id (some caps) =
      if is_blank id
      then fail invalid_argument (lit "ValidateVolumeCapabilities Volume ID must be provided")
      else check_volume libs id

  pub get_capacity_of_pool : Config → Handler W CapacityResponse
  get_capacity_of_pool d = do
    call c.login login_failed
    pool ←
        call (c.get_storage_pool_subscription d.storage_pool_id)
          (lit "Failed to get storage pool capacity")
    pure (record {
      available_capacity = int64_of pool.capacity_bytes;
      maximum_volume_size = pos maximum_volume_size_in_bytes;
      minimum_volume_size = pos minimum_volume_size_in_bytes;
    })

-- CreateSnapshot, DeleteSnapshot, ListSnapshots, ControllerExpandVolume, ControllerGetVolume,
-- ControllerPublishVolume and ControllerUnpublishVolume.
pub not_implemented : {W A : Type 0} → Handler W A
not_implemented = fail unimplemented (lit "not implemented")
