-- ===== src/Driver/Node/Publish/Mounts.antt =====
-- What NodePublishVolume does to the host.
use qnap_csi.Base.{List, [], Text}
use qnap_csi.Driver.Config.{Config}
use qnap_csi.Driver.Handler.{Ending, Ends}
use qnap_csi.Driver.Node.Disk.{Json, NodePublishVolumeRequest, get_iscsi_disk_mounter}
use qnap_csi.Driver.Node.Host.{Host, Change, recorded}
use qnap_csi.Driver.Node.Attach.Order.{Attached, Begun, attach_connected-Finishes}
use qnap_csi.Driver.Node.Publish.Rule.{publishes, node_publish_volume-Ends}
use qnap_csi.Driver.Node.Publish.{get_iscsi_lib_config_path, node_publish_volume}

module _ {W : Type 0} (h : Host W) (json : Json) (d : Config) (req : NodePublishVolumeRequest)
    (old : List Change) where
  abbrev Log : Type 0
  Log = W × List Change

  abbrev info_path : Text
  info_path = get_iscsi_lib_config_path d req.volume_id

  module _ (w : W) where
    -- With the disk that the context of the request tells of.
    abbrev pub published : Ending Log (Unit {0})
    published =
        publishes h json d req old w
          (λ disk c. Attached h c (get_iscsi_disk_mounter disk req) info_path old w [])
          (λ disk c. Begun h c (get_iscsi_disk_mounter disk req) info_path old w)

    -- Whatever the host does: at a reply NodePublishVolume has asked it to connect to the disk that
    -- the context of the request tells of, which gave a device that is not blank; where the host then
    -- saw the target path as a mount point, for nothing more, and where it did not, to make that path,
    -- to persist the connector and to mount the very device with the options, in this order. At an error
    -- it has asked for nothing, for the connection, or for a beginning of these with the device that
    -- connecting gave, the latter only where the path was seen as no mount point. It does not panic, so
    -- the pointer to the connector that AttachDisk follows is never nil.
    pub node_publish_volume-mounts :
        Ends published (node_publish_volume (recorded h) json d req (w, old))
    node_publish_volume-mounts =
        node_publish_volume-Ends h json d req old w
          (λ disk c. Attached h c (get_iscsi_disk_mounter disk req) info_path old w [])
          (λ disk c. Begun h c (get_iscsi_disk_mounter disk req) info_path old w)
          (λ disk c.
            attach_connected-Finishes h c (get_iscsi_disk_mounter disk req) info_path old w)
