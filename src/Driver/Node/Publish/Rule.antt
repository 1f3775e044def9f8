-- ===== src/Driver/Node/Publish/Rule.antt =====
-- NodePublishVolume in terms of AttachDisk.
use qnap_csi.Base.{
  ◌≡◌, ◌≢◌, refl, ◌∙◌, ◌⊎◌, inl, inr, false, Bool-cases, Option, none, some, List, Text, is_blank,
  Result, ok, err, lit, if◌then◌else◌,
}
use qnap_csi.Driver.Config.{Config}
use qnap_csi.Driver.Handler.{invalid_argument, Ending, Ends, Handler, ◌>>=◌, pure, fail}
use qnap_csi.Driver.Node.Disk.{
  Json, Connector, IscsiDisk, MountVolume, NodePublishVolumeRequest, get_iscsi_info,
  get_iscsi_disk_mounter, build_iscsi_connector,
}
use qnap_csi.Driver.Node.Disk.Laws.{get_iscsi_info-connector, get_iscsi_disk_mounter-connector}
use qnap_csi.Driver.Node.Host.{Host, Change, recorded}
use qnap_csi.Driver.Node.Attach.{attach_connected}
use qnap_csi.Driver.Node.Attach.Order.{Finishes, attach_disk-some}
use qnap_csi.Driver.Node.Publish.{
  answer, get_iscsi_lib_config_path, publish_disk, node_publish_volume,
}

module _ {W : Type 0} (h : Host W) (json : Json) (d : Config) (req : NodePublishVolumeRequest)
    (old : List Change) (w : W) (P B : IscsiDisk → Connector → W × List Change → Type 0) where
  abbrev Log : Type 0
  Log = W × List Change

  abbrev info_path : Text
  info_path = get_iscsi_lib_config_path d req.volume_id

  -- With the disk that the context of the request tells of, and its connector.
  abbrev pub publishes : Ending Log (Unit {0})
  publishes = record {
    at_reply = λ _ s.
        (disk : IscsiDisk) × (c : Connector) × (get_iscsi_info json req.volume_id req.volume_context
          ≡ ok disk)
        × (build_iscsi_connector disk ≡ some c)
        × P disk c s;
    at_status = λ _ _ s.
        (s.1 ≡ old)
        ⊎ ((disk : IscsiDisk) × (c : Connector) × (get_iscsi_info json req.volume_id
                req.volume_context
              ≡ ok disk)
            × (build_iscsi_connector disk ≡ some c)
            × B disk c s);
    at_wait = λ _. ⊥;
  }

  answered :
      (disk : IscsiDisk) (c : Connector) (r : Result Text × Log)
      → get_iscsi_info json req.volume_id req.volume_context ≡ ok disk
      → build_iscsi_connector disk ≡ some c
      → Finishes (λ _. P disk c) (B disk c) r
      → Ends publishes ((answer r.0 >>= λ _. pure tt) r.1)
  answered disk c (ok device, s) told built f = (disk, c, told, built, f)
  answered disk c (err e, s) told built f = inr (disk, c, told, built, f)

  abbrev Attaches : Type 0
  Attaches =
      (disk : IscsiDisk) (c : Connector)
      → Finishes (λ _. P disk c) (B disk c)
          (attach_connected (recorded h) c (get_iscsi_disk_mounter disk req) info_path (w, old))

  attached-Ends :
      Attaches
      → (disk : IscsiDisk) (o : Option Connector)
      → get_iscsi_info json req.volume_id req.volume_context ≡ ok disk
      → build_iscsi_connector disk ≡ o
      → o ≢ none
      → Ends publishes (publish_disk (recorded h) json d req disk (w, old))
  unfolding publish_disk
  attached-Ends attaches disk none told built ne = absurd (ne refl)
  attached-Ends attaches disk (some c) told built ne =
      rw
        (attach_disk-some (recorded h) c (get_iscsi_disk_mounter disk req) info_path (w, old)
          (get_iscsi_disk_mounter-connector disk req ∙ built))
        (answered disk c
          (attach_connected (recorded h) c (get_iscsi_disk_mounter disk req) info_path (w, old))
          told built (attaches disk c))

  told-Ends :
      Attaches
      → (r : Result IscsiDisk) → is_blank req.volume_id ≡ false
      → get_iscsi_info json req.volume_id req.volume_context ≡ r
      → Ends publishes ((answer r >>= publish_disk (recorded h) json d req) (w, old))
  told-Ends attaches (ok disk) named told =
      attached-Ends attaches disk (build_iscsi_connector disk) told refl
        (get_iscsi_info-connector json req.volume_id req.volume_context disk named told)
  told-Ends attaches (err e) named told = inl refl

  pub node_publish_volume-Ends :
      Attaches → Ends publishes (node_publish_volume (recorded h) json d req (w, old))
  unfolding node_publish_volume
  node_publish_volume-Ends attaches = go req.volume_capability
    where
      go :
          (capability : Option (Option MountVolume))
          → Ends publishes (
              (elim capability as (λ _. Handler Log (Unit {0})) [
                | none ↦ fail invalid_argument (lit "volume capability missing in request")
                | some c ↦
                    if is_blank req.volume_id
                    then fail invalid_argument (lit "volumeID missing in request")
                    else if is_blank req.target_path
                    then fail invalid_argument (lit "targetPath not provided")
                    else answer (get_iscsi_info json req.volume_id req.volume_context)
                      >>= publish_disk (recorded h) json d req
              ])
                (w, old))
      go none = inl refl
      go (some c) = elim (Bool-cases (is_blank req.volume_id)) [
        | inl unnamed ↦ rw unnamed (inl refl)
        | inr named ↦ elim (Bool-cases (is_blank req.target_path)) [
          | inl nowhere ↦ rw (named, nowhere) (inl refl)
          | inr somewhere ↦
              rw (named, somewhere)
                (told-Ends attaches (get_iscsi_info json req.volume_id req.volume_context) named
                  refl)
        ]
      ]
