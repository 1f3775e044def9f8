-- ===== src/Driver/Node/Publish/Healthy.antt =====
-- The node service on a host where no call fails.
use mathlib.Core.Path.{subst}
use qnap_csi.Base.{
  sym, ◌≡◌, ◌≢◌, refl, ◌∙◌, false, Option, none, some, List, Text, lit, is_blank, if◌then◌else◌,
  Result, ok, err,
}
use qnap_csi.Driver.Config.{Config}
use qnap_csi.Driver.Handler.{Handler, Ending, Ends, ◌>>=◌, pure, fail, invalid_argument}
use qnap_csi.Driver.Node.Disk.{
  Json, Connector, IscsiDisk, MountVolume, NodePublishVolumeRequest, get_iscsi_info,
  get_iscsi_disk_mounter, get_iscsi_disk_unmounter, build_iscsi_connector,
}
use qnap_csi.Driver.Node.Disk.Laws.{
  get_iscsi_info-connector, get_iscsi_disk_mounter-connector, get_iscsi_disk_mounter-target_path,
}
use qnap_csi.Driver.Node.Host.{Host, Change, found, recorded}
use qnap_csi.Driver.Node.Attach.{attach_connected, detach_disk}
use qnap_csi.Driver.Node.Attach.Order.{Finishes, attach_disk-some}
use qnap_csi.Driver.Node.Attach.Healthy.{
  Fails, IsFree, Mountable, Complete, attach_connected-Complete, Releasable, MountedOnce, Undone,
  before_file, detach_disk-undone,
}
use qnap_csi.Driver.Node.Publish.{
  answer, get_iscsi_lib_config_path, publish_disk, node_publish_volume, node_unpublish_volume,
}

module _ {W : Type 0} (h : Host W) (d : Config) where
  abbrev Log : Type 0
  Log = W × List Change

  -- A reply behind which this holds.
  abbrev pub replies : {A : Type 0} → (A → Log → Type 0) → Ending Log A
  replies P = record { at_reply = P; at_status = λ _ _ _. ⊥; at_wait = λ _. ⊥ }

  module _ (json : Json) (req : NodePublishVolumeRequest) (old : List Change) (w : W) where
    abbrev info_path : Text
    info_path = get_iscsi_lib_config_path d req.volume_id

    -- The disk is connected to and mounted.
    abbrev pub IsMounted : IscsiDisk → Log → Type 0
    IsMounted disk s =
        (c : Connector) × (build_iscsi_connector disk ≡ some c)
        × ((device : Text) × Complete h c (get_iscsi_disk_mounter disk req) info_path old w device
              s)

    answered :
        (disk : IscsiDisk) (c : Connector) (r : Result Text × Log)
        → build_iscsi_connector disk ≡ some c
        → Finishes (Complete h c (get_iscsi_disk_mounter disk req) info_path old w) Fails r
        → Ends (replies (λ _. IsMounted disk)) ((answer r.0 >>= λ _. pure tt) r.1)
    answered disk c (ok device, s) built f = (c, built, (device, f))
    answered disk c (err e, s) built f = absurd f

    disk-replies :
        (disk : IscsiDisk) (o : Option Connector)
        → Mountable h
        → IsFree h req.target_path w
        → build_iscsi_connector disk ≡ o
        → o ≢ none
        → Ends (replies (λ _. IsMounted disk)) (publish_disk (recorded h) json d req disk (w, old))
    unfolding publish_disk
    disk-replies disk none m is_free built ne = absurd (ne refl)
    disk-replies disk (some c) m is_free built ne =
        rw
          (attach_disk-some (recorded h) c (get_iscsi_disk_mounter disk req) info_path (w, old)
            (get_iscsi_disk_mounter-connector disk req ∙ built))
          (answered disk c
            (attach_connected (recorded h) c (get_iscsi_disk_mounter disk req) info_path (w, old))
            built
            (attach_connected-Complete h c (get_iscsi_disk_mounter disk req) info_path old w m (
              subst (λ path. IsFree h path w) (sym (get_iscsi_disk_mounter-target_path disk req))
                is_free)))

    -- A complete request gets past the first checks.
    node_publish_volume-past :
        (capability : Option MountVolume) (s : Log)
        → req.volume_capability ≡ some capability
        → is_blank req.volume_id ≡ false
        → is_blank req.target_path ≡ false
        → node_publish_volume (recorded h) json d req s
          ≡ (answer (get_iscsi_info json req.volume_id req.volume_context)
                >>= publish_disk (recorded h) json d req)
              s
    unfolding node_publish_volume
    node_publish_volume-past capability s capable named somewhere = go req.volume_capability capable
      where
        past : Handler Log (Unit {0})
        past =
            answer (get_iscsi_info json req.volume_id req.volume_context)
            >>= publish_disk (recorded h) json d req

        go :
            (o : Option (Option MountVolume))
            → o ≡ some capability
            → elim o as (λ _. Handler Log (Unit {0})) [
              | none ↦ fail invalid_argument (lit "volume capability missing in request")
              | some c ↦
                  if is_blank req.volume_id
                  then fail invalid_argument (lit "volumeID missing in request")
                  else if is_blank req.target_path
                  then fail invalid_argument (lit "targetPath not provided")
                  else past
            ]
                s
              ≡ past s
        go none e = absurd (cc e)
        go (some c) e = rw (named, somewhere)

    -- On a host where connecting gives a device, the target path is then no mount point and no other
    -- call fails: NodePublishVolume of a complete request, whose context tells of a disk, replies,
    -- and has asked the host to connect to that disk, to make the target path, to persist the
    -- connector and to mount the very device that connecting gave there, in this order.
    pub node_publish_volume_succeeds :
        (disk : IscsiDisk) (capability : Option MountVolume)
        → Mountable h
        → IsFree h req.target_path w
        → req.volume_capability ≡ some capability
        → is_blank req.volume_id ≡ false
        → is_blank req.target_path ≡ false
        → get_iscsi_info json req.volume_id req.volume_context ≡ ok disk
        → Ends
            (replies (λ _. IsMounted disk))
            (node_publish_volume (recorded h) json d req (w, old))
    node_publish_volume_succeeds disk capability m is_free capable named somewhere told =
        rw (node_publish_volume-past capability (w, old) capable named somewhere, told)
          (disk-replies disk (build_iscsi_connector disk) m is_free refl
            (get_iscsi_info-connector json req.volume_id req.volume_context disk named told))

  module _ (c : Connector) (id target_path : Text) (old : List Change) where
    undone :
        (r : Result (Unit {0}) × Log)
        → Finishes (Undone h c target_path (get_iscsi_lib_config_path d id) old) Fails r
        → Ends
            (replies (Undone h c target_path (get_iscsi_lib_config_path d id) old))
            (answer r.0 r.1)
    undone (ok _, s) f = f
    undone (err e, s) f = absurd f

    -- On a host that in the state of the call has the target path, with its device mounted there alone,
    -- that then reads the connector of the volume from its file, and where unmounting the path,
    -- disconnecting that volume and removing the file do not fail: NodeUnpublishVolume replies, and has
    -- asked the host to unmount the path, to disconnect that volume and its target, and to remove the path
    -- and the file, in this order.
    pub node_unpublish_volume_succeeds :
        (w : W)
        → Releasable h c target_path (get_iscsi_lib_config_path d id)
        → MountedOnce h target_path w
        → (h.get_connector_from_file
            (get_iscsi_lib_config_path d id)
            (before_file h c target_path (get_iscsi_lib_config_path d id) old w)).0
          ≡ found c
        → is_blank id ≡ false
        → is_blank target_path ≡ false
        → Ends
            (replies (Undone h c target_path (get_iscsi_lib_config_path d id) old))
            (node_unpublish_volume (recorded h) d id target_path (w, old))
    unfolding node_unpublish_volume
    node_unpublish_volume_succeeds w m once loaded named somewhere =
        rw (named, somewhere)
          (undone
            (detach_disk (recorded h) (get_iscsi_disk_unmounter id) target_path
              (get_iscsi_lib_config_path d id) (w, old))
            (detach_disk-undone h c target_path (get_iscsi_lib_config_path d id) old
              (get_iscsi_disk_unmounter id) m w once loaded))
