-- ===== src/Driver/Node/Publish/Unmounts.antt =====
-- What NodeUnpublishVolume does to the host.
use qnap_csi.Base.{refl, inl, inr, Bool-cases, List, Text, is_blank, Result, ok, err}
use qnap_csi.Driver.Config.{Config}
use qnap_csi.Driver.Handler.{Ending, Ends}
use qnap_csi.Driver.Node.Host.{Host, Change, recorded}
use qnap_csi.Driver.Node.Disk.{get_iscsi_disk_unmounter}
use qnap_csi.Driver.Node.Attach.{detach_disk}
use qnap_csi.Driver.Node.Attach.Order.{Finishes}
use qnap_csi.Driver.Node.Attach.Release.{Detached, Begun, detach_disk-Finishes}
use qnap_csi.Driver.Node.Publish.{answer, get_iscsi_lib_config_path, node_unpublish_volume}

module _ {W : Type 0} (h : Host W) (d : Config) (id target_path : Text) (old : List Change) where
  abbrev Log : Type 0
  Log = W × List Change

  abbrev info_path : Text
  info_path = get_iscsi_lib_config_path d id

  abbrev pub unpublished : Ending Log (Unit {0})
  unpublished = record {
    at_reply = Detached h target_path info_path old;
    at_status = λ _ _. Begun h target_path info_path old;
    at_wait = λ _. ⊥;
  }

  answered :
      (r : Result (Unit {0}) × Log)
      → Finishes (Detached h target_path info_path old) (Begun h target_path info_path old) r
      → Ends unpublished (answer r.0 r.1)
  answered (ok _, s) f = f
  answered (err e, s) f = f

  -- Whatever the host does: at a reply NodeUnpublishVolume has asked it for nothing, or to unmount
  -- the target path, or to unmount it, to disconnect the volume and then the target, to remove
  -- the path and last the file of the connector; at an error for a beginning of these. It does
  -- not panic.
  pub node_unpublish_volume-unmounts :
      (w : W) → Ends unpublished (node_unpublish_volume (recorded h) d id target_path (w, old))
  unfolding node_unpublish_volume
  node_unpublish_volume-unmounts w = elim (Bool-cases (is_blank id)) [
    | inl unnamed ↦ rw unnamed (inl refl)
    | inr named ↦ elim (Bool-cases (is_blank target_path)) [
      | inl nowhere ↦ rw (named, nowhere) (inl refl)
      | inr somewhere ↦
          rw (named, somewhere)
            (answered
              (detach_disk (recorded h) (get_iscsi_disk_unmounter id) target_path info_path
                (w, old))
              (detach_disk-Finishes h target_path info_path old (get_iscsi_disk_unmounter id) w))
    ]
  ]
