-- ===== src/Driver/Node/Publish.antt =====
-- The handlers of driver/node.go, and getISCSILibConfigPath of driver/driver.go.
pub mod Rule
pub mod Undone
pub mod Mounts
pub mod Unmounts
pub mod Healthy
use qnap_csi.Base.{
  Bool, Option, none, some, List, [], ◌∷◌, ◌++◌, Text, lit, is_blank, Result, ok, err,
  if◌then◌else◌,
}
use qnap_csi.Go.Path.{join_path}
use qnap_csi.Driver.Handler.{
  Handler, invalid_argument, internal, unimplemented, ◌>>=◌, ◌>>◌, pure, fail, call,
}
use qnap_csi.Driver.Config.{Config}
use qnap_csi.Driver.Node.Disk.{
  Json, IscsiDisk, MountVolume, NodePublishVolumeRequest, get_iscsi_info, get_iscsi_disk_mounter,
  get_iscsi_disk_unmounter,
}
use qnap_csi.Driver.Node.Host.{Host}
use qnap_csi.Driver.Node.Attach.{attach_disk, detach_disk}

pub get_iscsi_lib_config_path : Config → Text → Text
get_iscsi_lib_config_path d id = join_path d.config_dir (id ++ lit ".json")

pub node_get_info : Config → Text
node_get_info d = d.node_id

pub data NodeCapability : Type 0 where
  unknown : NodeCapability

pub node_get_capabilities : List NodeCapability
node_get_capabilities = unknown ∷ []

-- NodeStageVolume and NodeUnstageVolume.
pub node_stage_volume : {W : Type 0} → Handler W (Unit {0})
node_stage_volume = pure tt

-- NodeGetVolumeStats and NodeExpandVolume.
pub node_not_implemented : {W A : Type 0} → Handler W A
node_not_implemented = fail unimplemented (lit "not implemented")

-- `status.Error(codes.Internal, err.Error())`
abbrev pub answer : {W A : Type 0} → Result A → Handler W A
answer (ok a) = pure a
answer (err e) = fail internal e

module _ {W : Type 0} (h : Host W) (json : Json) (d : Config) where
  publish_disk : NodePublishVolumeRequest → IscsiDisk → Handler W (Unit {0})
  publish_disk req disk = do
    attached ←
        attach_disk h (get_iscsi_disk_mounter disk req) (get_iscsi_lib_config_path d req.volume_id)
    device ← answer attached
    pure tt

  pub node_publish_volume : NodePublishVolumeRequest → Handler W (Unit {0})
  unfolding publish_disk
  node_publish_volume req = elim req.volume_capability [
    | none ↦ fail invalid_argument (lit "volume capability missing in request")
    | some c ↦
        if is_blank req.volume_id
        then fail invalid_argument (lit "volumeID missing in request")
        else if is_blank req.target_path
        then fail invalid_argument (lit "targetPath not provided")
        else answer (get_iscsi_info json req.volume_id req.volume_context) >>= publish_disk req
  ]

module _ {W : Type 0} (h : Host W) (d : Config) where
  pub node_unpublish_volume : Text → Text → Handler W (Unit {0})
  node_unpublish_volume id target_path =
      if is_blank id
      then fail invalid_argument (lit "Volume ID missing in request")
      else if is_blank target_path
      then fail invalid_argument (lit "Target path not provided")
      else λ w.
          let (r, w') =
            detach_disk h (get_iscsi_disk_unmounter id) target_path (get_iscsi_lib_config_path d id)
              w in
          answer r w'
