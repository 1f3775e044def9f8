-- ===== src/Driver/Node/Attach/Filed.antt =====
-- The file of the connector and the mount, from AttachDisk to DetachDisk.
use qnap_csi.Base.{
  ℕ, suc, ◌≡◌, refl, ap, ◌∙◌, ◌⊎◌, inl, inr, Bool, true, false, Bool-cases, Option, some, List, ◌∷◌,
  Text, lit, is_blank, Result, ok, err,
}
use qnap_csi.Base.Int.{pos}
use qnap_csi.Driver.Node.Disk.{Connector, IscsiDiskMounter}
use qnap_csi.Driver.Node.Host.{Host, Change, found, connected, recorded, reword, reworded}
use qnap_csi.Driver.Node.Attach.{
  attach_connected, check_target, unless_mounted, mount_device, mount_options_of, check_mount_point,
}
use qnap_csi.Driver.Node.Attach.Order.{Finishes, Finishes-bind}

-- What the node service relies on its host for. The connector that is persisted under a path stays on
-- file through a mount and the looks at the host, and is what is read from there. The mount table tells
-- the device at a path and how often a device is mounted; only a mount changes it here, and adds one.
-- A path with a device at it exists, and the count at it is that of its device.
pub record HostContract {W : Type 0} (h : Host W) : Type 0 where
  pub on_file : Text → W → Option Connector
  pub device_at : Text → W → Option Text
  pub uses : Text → W → ℕ
  pub persist :
      (c : Connector) (path : Text) (w : W)
      → (h.persist_connector c path w).0 ≡ ok tt
      → on_file path (h.persist_connector c path w).1 ≡ some c
  pub persist-uses :
      (c : Connector) (path device : Text) (w : W)
      → uses device (h.persist_connector c path w).1 ≡ uses device w
  pub look-uses :
      (path device : Text) (w : W)
      → uses device (h.is_likely_not_mount_point path w).1 ≡ uses device w
  pub mkdir-uses : (path device : Text) (w : W) → uses device (h.mkdir_all path w).1 ≡ uses device w
  pub mount :
      (device target fs : Text) (options : List Text) (path : Text) (w : W)
      → on_file path (h.format_and_mount device target fs options w).1 ≡ on_file path w
  pub mounted :
      (device target fs : Text) (options : List Text) (w : W)
      → (h.format_and_mount device target fs options w).0 ≡ ok tt
      → (device_at target (h.format_and_mount device target fs options w).1 ≡ some device)
        × (uses device (h.format_and_mount device target fs options w).1 ≡ suc (uses device w))
  pub mount_count :
      (target path : Text) (w : W) → on_file path (h.mount_count target w).1 ≡ on_file path w
  pub counted :
      (target device : Text) (w : W)
      → device_at target w ≡ some device
      → ((h.mount_count target w).0 ≡ ok (pos (uses device w)))
        × (device_at target (h.mount_count target w).1 ≡ some device)
  pub path_exists :
      (target path : Text) (w : W) → on_file path (h.path_exists target w).1 ≡ on_file path w
  pub exists :
      (target device : Text) (w : W)
      → device_at target w ≡ some device
      → (h.path_exists target w).0 ≡ ok true
  pub load :
      (path : Text) (w : W) (c : Connector)
      → on_file path w ≡ some c
      → (h.get_connector_from_file path w).0 ≡ found c

reworded-ok : {A : Type 0} (f : Text → Text) (r : Result A) (a : A) → reworded f r ≡ ok a → r ≡ ok a
reworded-ok f (ok b) a e = e
reworded-ok f (err m) a e = absurd (cc e)

module _ {W : Type 0} (h : Host W) (K : HostContract h) (c : Connector) (b : IscsiDiskMounter)
    (info_path : Text) (old : List Change) (w : W) where
  abbrev Log : Type 0
  Log = W × List Change

  -- The device that connecting gave is mounted at the target path, once more than before.
  abbrev pub IsMountedAt : W → Type 0
  IsMountedAt u =
      (device : Text) × ((h.connect c w).0 ≡ ok device)
      × (K.device_at b.target_path u ≡ some device)
      × (K.uses device u ≡ suc (K.uses device (h.connect c w).1))

  -- So it is, and the connector is on file, unless the disk was only connected to.
  abbrev pub Filed : Log → Type 0
  Filed s = (s.1 ≡ connected c ∷ old) ⊎ ((K.on_file info_path s.0 ≡ some c) × IsMountedAt s.0)

  abbrev pub Any : Log → Type 0
  Any _ = Unit

  mount_device-Filed :
      (device : Text) (u : W)
      → (h.connect c w).0 ≡ ok device
      → K.uses device u ≡ K.uses device (h.connect c w).1
      → Finishes
          (λ _. Filed)
          Any
          (mount_device (recorded h) c b info_path device (u, connected c ∷ old))
  unfolding mount_device
  mount_device-Filed device u reached same =
      Finishes-bind (λ _. Filed) Any ((recorded h).mkdir_all b.target_path) _ (u, connected c ∷ old)
        (λ _ _.
          Finishes-bind (λ _. Filed) Any
            (reword (λ _. lit "unable to create persistence file for connection")
              ((recorded h).persist_connector c info_path))
            _ _
            (λ _ kept.
              Finishes-bind (λ _. Filed) Any
                ((recorded h).format_and_mount device b.target_path b.fs_type (mount_options_of b))
                _ _
                (λ _ done.
                  let (at, more) =
                    K.mounted device b.target_path b.fs_type (mount_options_of b) _ done in
                  inr (
                    K.mount device b.target_path b.fs_type (mount_options_of b) info_path _
                        ∙ K.persist c info_path _ (reworded-ok _ _ tt kept),
                    (
                      device,
                      reached,
                      at,
                      more
                          ∙ ap suc (
                              K.persist-uses c info_path device _
                              ∙ K.mkdir-uses b.target_path device u
                              ∙ same),
                    ),
                  ))
                tt)
            tt)
        tt

  unless_mounted-Filed :
      (device : Text) (not_mount_point : Bool) (u : W)
      → (h.connect c w).0 ≡ ok device
      → K.uses device u ≡ K.uses device (h.connect c w).1
      → Finishes
          (λ _. Filed)
          Any
          (unless_mounted (recorded h) c b info_path device not_mount_point (u, connected c ∷ old))
  unfolding unless_mounted
  unless_mounted-Filed device true u reached same = mount_device-Filed device u reached same
  unless_mounted-Filed device false u reached same = inl refl

  pub attach_connected-Filed :
      Finishes (λ _. Filed) Any (attach_connected (recorded h) c b info_path (w, old))
  unfolding attach_connected check_target
  attach_connected-Filed =
      Finishes-bind (λ _. Filed) Any ((recorded h).connect c) _ (w, old)
        (λ device reached. elim (Bool-cases (is_blank device)) [
          | inl blank ↦ rw blank tt
          | inr given ↦ rw given (
              Finishes-bind (λ _. Filed) Any
                (λ s.
                  let (answer, s') = (recorded h).is_likely_not_mount_point b.target_path s in
                  (check_mount_point answer, s'))
                (unless_mounted (recorded h) c b info_path device) _
                (λ not_mount_point _.
                  unless_mounted-Filed device not_mount_point _ reached
                    (K.look-uses b.target_path device (h.connect c w).1))
                tt)
        ])
        tt
