-- ===== src/Driver/Node/Attach/Healthy.antt =====
-- AttachDisk and DetachDisk on a host where no call fails.
use qnap_csi.Base.{
  ◌≡◌, refl, sym, ap, ◌∙◌, Bool, true, false, none, List, ◌∷◌, onto, Text, lit, is_blank, Result,
  ok, err,
}
use qnap_csi.Base.Int.{pos}
use qnap_csi.Qnap.Client.{Method}
use qnap_csi.Driver.Handler.{Succeeds}
use qnap_csi.Driver.Node.Disk.{Connector, IscsiDiskMounter, IscsiDiskUnmounter}
use qnap_csi.Driver.Node.Host.{
  Host, Change, Loaded, found, connected, unmounted, recorded, ◌>>=◌, after, reword, reworded,
}
use qnap_csi.Driver.Node.Attach.{
  attach_connected, check_target, unless_mounted, mount_device, mount_options_of, check_mount_point,
  detach_disk, release_loaded, release, close, remove_tree, less_one,
}
use qnap_csi.Driver.Node.Attach.Order.{Finishes, attach_plan}
use qnap_csi.Driver.Node.Attach.Release.{detach_plan}

-- No error comes of it.
abbrev pub Fails : {W : Type 0} → W → Type 0
Fails _ = ⊥

Finishes-succeeds :
    {W A B : Type 0} (P : B → W → Type 0) (m : Method W A) (f : A → Method W B) (w : W)
    → ((a : A) × ((m w).0 ≡ ok a))
    → ((a : A) → (m w).0 ≡ ok a → Finishes P Fails (f a (m w).1))
    → Finishes P Fails ((m >>= f) w)
Finishes-succeeds {W} {A} P m f w (a, sound) h = go (m w).0 refl
  where
    go : (r : Result A) → (m w).0 ≡ r → Finishes P Fails (after r f (m w).1)
    go (ok a') e = h a' e
    go (err message) e = absurd (cc)

reword-ok :
    {A : Type 0} (f : Text → Text) (r : Result A)
    → ((a : A) × (r ≡ ok a))
    → (a : A) × (reworded f r ≡ ok a)
reword-ok f r (a, e) = (a, rw e)

module _ {W : Type 0} (h : Host W) where
  -- Once connected, whatever to, the path is no mount point.
  abbrev pub IsFree : Text → W → Type 0
  IsFree path w =
      (c : Connector) → (h.is_likely_not_mount_point path (h.connect c w).1).0 ≡ (true, none)

  -- Connecting gives a device, and the rest succeeds.
  pub record Mountable : Type 0 where
    pub connect :
        (c : Connector) (w : W)
        → (device : Text) × ((h.connect c w).0 ≡ ok device) × (is_blank device ≡ false)
    pub mkdir_all : (path : Text) → Succeeds (h.mkdir_all path)
    pub persist : (c : Connector) (path : Text) → Succeeds (h.persist_connector c path)
    pub mount :
        (device path fs : Text) (options : List Text)
        → Succeeds (h.format_and_mount device path fs options)

  module _ (c : Connector) (b : IscsiDiskMounter) (info_path : Text) (old : List Change)
      (w : W) where
    -- With the device that connecting gave.
    abbrev pub Complete : Text → W × List Change → Type 0
    Complete device s =
        ((h.connect c w).0 ≡ ok device)
        × (is_blank device ≡ false)
        × (s.1 ≡ onto (attach_plan c b info_path device) old)

    mount_device-Complete :
        (device : Text) (u : W)
        → Mountable
        → (h.connect c w).0 ≡ ok device
        → is_blank device ≡ false
        → Finishes Complete Fails
            (mount_device (recorded h) c b info_path device (u, connected c ∷ old))
    unfolding mount_device
    mount_device-Complete device u m reached given =
        Finishes-succeeds Complete ((recorded h).mkdir_all b.target_path) _ (u, connected c ∷ old)
          (m.mkdir_all b.target_path u)
          (λ _ _.
            Finishes-succeeds Complete
              (reword (λ _. lit "unable to create persistence file for connection")
                ((recorded h).persist_connector c info_path))
              _ _ (reword-ok _ _ (m.persist c info_path _))
              (λ _ _.
                Finishes-succeeds Complete
                  ((recorded h).format_and_mount device b.target_path b.fs_type
                    (mount_options_of b))
                  _ _ (m.mount device b.target_path b.fs_type (mount_options_of b) _)
                  (λ _ _. (reached, given, refl))))

    -- AttachDisk makes all its changes, and gives the device.
    pub attach_connected-Complete :
        Mountable
        → IsFree b.target_path w
        → Finishes Complete Fails (attach_connected (recorded h) c b info_path (w, old))
    unfolding attach_connected check_target unless_mounted check_mount_point
    attach_connected-Complete m is_free =
        let (device, reached, given) = m.connect c w in
        Finishes-succeeds Complete ((recorded h).connect c) _ (w, old) (device, reached)
          (λ device' e.
            let given' : is_blank device' ≡ false = cc in
            rw given' (
              Finishes-succeeds Complete
                (λ s.
                  let (answer, s') = (recorded h).is_likely_not_mount_point b.target_path s in
                  (check_mount_point answer, s'))
                (unless_mounted (recorded h) c b info_path device')
                ((h.connect c w).1, connected c ∷ old) (true, free)
                (λ not_mount_point e'.
                  unless device' not_mount_point
                    (h.is_likely_not_mount_point b.target_path (h.connect c w).1).1 e given'
                    (sym free ∙ e'))))
      where
        free :
            check_mount_point (h.is_likely_not_mount_point b.target_path (h.connect c w).1).0
            ≡ ok true
        free = ap check_mount_point (is_free c)

        unless :
            (device : Text) (not_mount_point : Bool) (w' : W)
            → (h.connect c w).0 ≡ ok device
            → is_blank device ≡ false
            → ok true ≡ ok not_mount_point
            → Finishes Complete Fails (
                unless_mounted
                  (recorded h)
                  c
                  b
                  info_path
                  device
                  not_mount_point
                  (w', connected c ∷ old))
        unless device true w' reached given e = mount_device-Complete device w' m reached given
        unless device false w' reached given e = absurd (cc e)

  -- Taking this volume off the host succeeds.
  pub record Releasable (c : Connector) (target_path info_path : Text) : Type 0 where
    pub unmount : Succeeds (h.unmount target_path)
    pub disconnect_volume : Succeeds (h.disconnect_volume c)
    pub remove : Succeeds (h.remove info_path)

  -- In this state the path is there, and its device is mounted there alone.
  abbrev pub MountedOnce : Text → W → Type 0
  MountedOnce path w =
      ((h.mount_count path w).0 ≡ ok (pos 1))
      × ((h.path_exists path (h.mount_count path w).1).0 ≡ ok true)

  module _ (c : Connector) (target_path info_path : Text) (old : List Change) where
    abbrev pub Undone : Unit {0} → W × List Change → Type 0
    Undone _ s = s.1 ≡ onto (detach_plan c target_path info_path) old

    release-undone :
        Releasable c target_path info_path
        → (w : W)
        → Finishes Undone Fails (release (recorded h) c target_path info_path (pos 1) (w, old))
    unfolding release close remove_tree less_one
    release-undone m w =
        Finishes-succeeds Undone ((recorded h).unmount target_path) _ (w, old) (m.unmount w)
          (λ _ _.
            Finishes-succeeds Undone ((recorded h).disconnect_volume c) _
              ((h.unmount target_path w).1, unmounted target_path ∷ old)
              (m.disconnect_volume (h.unmount target_path w).1)
              (λ _ _. undone (h.remove info_path _) (m.remove _)))
      where
        undone :
            (r : Result (Unit {0}) × W)
            → ((a : Unit {0}) × (r.0 ≡ ok a))
            → Finishes Undone Fails (r.0, (r.1, onto (detach_plan c target_path info_path) old))
        undone (ok _, w') e = refl
        undone (err message, w') (_, e) = absurd (cc e)

    loaded-undone :
        Releasable c target_path info_path
        → (loaded : Loaded) (w : W) → loaded ≡ found c
        → Finishes Undone Fails
            (release_loaded (recorded h) loaded target_path info_path (pos 1) (w, old))
    unfolding release_loaded
    loaded-undone m loaded w e = rw e (release-undone m w)

    -- The state in which DetachDisk reads the file.
    abbrev pub before_file : W → W
    before_file w = (h.path_exists target_path (h.mount_count target_path w).1).1

    -- DetachDisk makes all its changes.
    pub detach_disk-undone :
        (u : IscsiDiskUnmounter)
        → Releasable c target_path info_path
        → (w : W) → MountedOnce target_path w
        → (h.get_connector_from_file info_path (before_file w)).0 ≡ found c
        → Finishes Undone Fails (detach_disk (recorded h) u target_path info_path (w, old))
    unfolding detach_disk
    detach_disk-undone u m w (once, there) loaded =
        rw (once, there)
          (loaded-undone m (h.get_connector_from_file info_path (before_file w)).0
            (h.get_connector_from_file info_path (before_file w)).1 loaded)
