-- ===== src/Driver/Node/Publish/Undone.antt =====
-- NodePublishVolume, and NodeUnpublishVolume of the same volume and path behind it.
use mathlib.Core.Path.{subst}
use qnap_csi.Base.Int.{pos}
use qnap_csi.Driver.Node.Disk.Laws.{get_iscsi_disk_mounter-target_path}
use qnap_csi.Base.{
  suc, ◌≡◌, sym, ap, ◌∙◌, inl, inr, Option, some, false, List, onto, Text, is_blank, ok,
}
use qnap_csi.Driver.Config.{Config}
use qnap_csi.Driver.Handler.{
  Outcome, reply, status, panics, still_waiting, Ending, Ends, Ends-bind, both, both-Ends, ◌>>◌,
}
use qnap_csi.Driver.Node.Disk.{
  Json, Connector, IscsiDisk, MountVolume, NodePublishVolumeRequest, get_iscsi_info,
  get_iscsi_disk_mounter, build_iscsi_connector,
}
use qnap_csi.Driver.Node.Host.{Host, Change, recorded}
use qnap_csi.Driver.Node.Attach.Order.{attach_plan}
use qnap_csi.Driver.Node.Attach.Release.{detach_plan}
use qnap_csi.Driver.Node.Attach.Healthy.{Mountable, IsFree, Releasable, MountedOnce, Undone}
use qnap_csi.Driver.Node.Attach.Filed.{
  HostContract, IsMountedAt, Filed, Any, attach_connected-Filed,
}
use qnap_csi.Driver.Node.Publish.{
  get_iscsi_lib_config_path, node_publish_volume, node_unpublish_volume,
}
use qnap_csi.Driver.Node.Publish.Rule.{publishes, node_publish_volume-Ends}
use qnap_csi.Driver.Node.Publish.Healthy.{
  replies, IsMounted, node_publish_volume_succeeds, node_unpublish_volume_succeeds,
}

some-injective : {A : Type 0} {a b : A} → some a ≡ some b → a ≡ b
some-injective e = cc e

ok-injective : {A : Type 0} {a b : A} → ok a ≡ ok b → a ≡ b
ok-injective e = cc e

module _ {W : Type 0} (h : Host W) (K : HostContract h) (json : Json) (d : Config)
    (req : NodePublishVolumeRequest) (old : List Change) (w : W) where
  abbrev Log : Type 0
  Log = W × List Change

  abbrev info_path : Text
  info_path = get_iscsi_lib_config_path d req.volume_id

  -- The changes of both handlers, of one connector.
  abbrev pub BackAgain : IscsiDisk → Connector → Unit {0} → Log → Type 0
  BackAgain disk c _ s =
      (device : Text) × ((h.connect c w).0 ≡ ok device)
      × (s.1
          ≡ onto (detach_plan c req.target_path info_path)
              (onto (attach_plan c (get_iscsi_disk_mounter disk req) info_path device) old))

  -- Behind the first.
  abbrev between : IscsiDisk → Ending Log (Unit {0})
  between disk = both (replies h d (λ _. IsMounted h d json req old w disk)) (
      publishes h json d req old w
        (λ disk c. Filed h K c (get_iscsi_disk_mounter disk req) info_path old w)
        (λ disk c. Any h K c (get_iscsi_disk_mounter disk req) info_path old w))

  module _ (disk : IscsiDisk) (c : Connector)
      (told : get_iscsi_info json req.volume_id req.volume_context ≡ ok disk)
      (built : build_iscsi_connector disk ≡ some c) where
    -- The connector is on file, and the device is mounted at the target path.
    kept :
        (s : Log)
        → (between disk).at_reply tt s
        → (K.on_file info_path s.0 ≡ some c)
          × IsMountedAt h K c (get_iscsi_disk_mounter disk req) info_path old w s.0
    kept s ((c', built', (device, (reached, given, log))), (disk', c'', told', built'', filed)) =
        elim filed [
          | inl only_connected ↦ absurd (cc (only_connected, log))
          | inr there ↦
              subst
                (λ x.
                  (K.on_file info_path s.0 ≡ some x)
                  × IsMountedAt h K x (get_iscsi_disk_mounter disk req) info_path old w s.0)
                (some-injective (sym built'' ∙ same ∙ built))
                (subst
                  (λ y.
                    (K.on_file info_path s.0 ≡ some c'')
                    × IsMountedAt h K c'' (get_iscsi_disk_mounter y req) info_path old w s.0)
                  (ok-injective (sym told' ∙ told)) there)
        ]
      where
        same : build_iscsi_connector disk' ≡ build_iscsi_connector disk
        same = ap build_iscsi_connector (ok-injective (sym told' ∙ told))

    -- Its device is mounted nowhere else.
    once :
        (s : Log)
        → IsMountedAt h K c (get_iscsi_disk_mounter disk req) info_path old w s.0
        → ((device : Text) → (h.connect c w).0 ≡ ok device → K.uses device (h.connect c w).1 ≡ 0)
        → MountedOnce h req.target_path s.0
    once s (device, reached, there, more) unused =
        let at : K.device_at req.target_path s.0 ≡ some device =
          subst (λ path. K.device_at path s.0 ≡ some device)
            (get_iscsi_disk_mounter-target_path disk req) there in
        let (count, still) = K.counted req.target_path device s.0 at in
        (
          count ∙ ap (λ n. ok (pos n)) (more ∙ ap suc (unused device reached)),
          K.exists req.target_path device _ still,
        )

    log_of :
        (s : Log)
        → (between disk).at_reply tt s
        → (device : Text) × ((h.connect c w).0 ≡ ok device)
          × (s.1 ≡ onto (attach_plan c (get_iscsi_disk_mounter disk req) info_path device) old)
    log_of s ((c', built', (device, (reached, given, log))), _) =
        let (reached', log') =
          subst
            (λ x.
              ((h.connect x w).0 ≡ ok device)
              × (s.1 ≡ onto (attach_plan x (get_iscsi_disk_mounter disk req) info_path device) old))
            (some-injective (sym built' ∙ built)) (reached, log) in
        (device, reached', log')

    unpublished :
        (s : Log)
        → (between disk).at_reply tt s
        → Releasable h c req.target_path info_path
        → ((device : Text) → (h.connect c w).0 ≡ ok device → K.uses device (h.connect c w).1 ≡ 0)
        → is_blank req.volume_id ≡ false
        → is_blank req.target_path ≡ false
        → Ends
            (replies h d (BackAgain disk c))
            (node_unpublish_volume (recorded h) d req.volume_id req.target_path s)
    unpublished s there m unused named somewhere =
        let (device, reached, log) = log_of s there in
        let (on_file, at) = kept s there in
        weaken device reached log
          (node_unpublish_volume (recorded h) d req.volume_id req.target_path s)
          (node_unpublish_volume_succeeds h d c req.volume_id req.target_path s.1 s.0 m
            (once s at unused)
            (K.load info_path _ c (
              K.path_exists req.target_path info_path _
              ∙ K.mount_count req.target_path info_path _
              ∙ on_file))
            named somewhere)
      where
        weaken :
            (device : Text)
            → (h.connect c w).0 ≡ ok device
            → s.1 ≡ onto (attach_plan c (get_iscsi_disk_mounter disk req) info_path device) old
            → (r : Outcome (Unit {0}) × Log)
            → Ends (replies h d (Undone h c req.target_path info_path s.1)) r
            → Ends (replies h d (BackAgain disk c)) r
        weaken device reached log (reply _, t) e =
            (device, reached, e ∙ ap (onto (detach_plan c req.target_path info_path)) log)
        weaken device reached log (status code message, t) h = h
        weaken device reached log (panics, t) h = h
        weaken device reached log (still_waiting, t) h = h

    -- On a host that keeps connectors on file and a mount table, where connecting gives a device that is
    -- then mounted nowhere, where the target path is then no mount point, and where no call that changes the
    -- host fails: a complete request, whose context tells of a disk with this connector, is published,
    -- and NodeUnpublishVolume of the same volume and path behind it replies. The host has then been asked
    -- for exactly the changes of the mount, with the device that connecting gave, and then to unmount the
    -- path, to disconnect the volume and the target of the very same connector, and to remove the path
    -- and the file.
    pub node_publish_volume-node_unpublish_volume :
        (capability : Option MountVolume)
        → Mountable h
        → IsFree h req.target_path w
        → ((device : Text) → (h.connect c w).0 ≡ ok device → K.uses device (h.connect c w).1 ≡ 0)
        → Releasable h c req.target_path info_path
        → req.volume_capability ≡ some capability
        → is_blank req.volume_id ≡ false
        → is_blank req.target_path ≡ false
        → Ends (replies h d (BackAgain disk c)) (
            (node_publish_volume (recorded h) json d req
                >> node_unpublish_volume (recorded h) d req.volume_id req.target_path)
              (w, old))
    node_publish_volume-node_unpublish_volume capability m is_free unused m' capable named
          somewhere =
        Ends-bind (between disk) (replies h d (BackAgain disk c))
          (node_publish_volume (recorded h) json d req) _ (w, old)
          (both-Ends (replies h d (λ _. IsMounted h d json req old w disk))
            (publishes h json d req old w
              (λ disk c. Filed h K c (get_iscsi_disk_mounter disk req) info_path old w)
              (λ disk c. Any h K c (get_iscsi_disk_mounter disk req) info_path old w))
            (node_publish_volume (recorded h) json d req (w, old))
            (node_publish_volume_succeeds h d json req old w disk capability m is_free capable named
              somewhere told)
            (node_publish_volume-Ends h json d req old w
              (λ disk c. Filed h K c (get_iscsi_disk_mounter disk req) info_path old w)
              (λ disk c. Any h K c (get_iscsi_disk_mounter disk req) info_path old w)
              (λ disk c.
                attach_connected-Filed h K c (get_iscsi_disk_mounter disk req) info_path old w)))
          (λ _ s there. unpublished s there m' unused named somewhere) (λ _ _ _ h. absurd h.0)
          (λ _ h. absurd h.0)
