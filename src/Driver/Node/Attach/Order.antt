-- ===== src/Driver/Node/Attach/Order.antt =====
-- The order in which AttachDisk changes the host.
use qnap_csi.Base.{
  ◌≡◌, refl, ◌⊎◌, inl, inr, Bool, true, false, Bool-cases, Option, none, some, List, [], ◌∷◌, ◌++◌,
  onto, Text, lit, is_blank, Result, ok, err, arith,
}
use qnap_csi.Qnap.Client.{Method}
use qnap_csi.Driver.Handler.{reply}
use qnap_csi.Driver.Node.Disk.{Connector, IscsiDiskMounter}
use qnap_csi.Driver.Node.Host.{
  Host, Fault, Change, connected, made, persisted, mounted, recorded, ◌>>=◌, after, reword,
}
use qnap_csi.Driver.Node.Attach.{
  attach_disk, attach_connected, check_target, unless_mounted, mount_device, mount_options_of,
  check_mount_point,
}

-- What holds at a value, and at an error.
abbrev pub Finishes : {W A : Type 0} → (A → W → Type 0) → (W → Type 0) → Result A × W → Type 0
Finishes P Q (ok a, w) = P a w
Finishes P Q (err e, w) = Q w

pub Finishes-bind :
    {W A B : Type 0} (P : B → W → Type 0) (Q : W → Type 0) (m : Method W A) (f : A → Method W B)
    (w : W)
    → ((a : A) → (m w).0 ≡ ok a → Finishes P Q (f a (m w).1))
    → Q (m w).1
    → Finishes P Q ((m >>= f) w)
Finishes-bind {W} {A} P Q m f w h q = go (m w).0 refl
  where
    go : (r : Result A) → (m w).0 ≡ r → Finishes P Q (after r f (m w).1)
    go (ok a) e = h a e
    go (err e) _ = q

-- All the changes of AttachDisk.
abbrev pub attach_plan : Connector → IscsiDiskMounter → Text → Text → List Change
attach_plan c b info_path device =
    connected c
    ∷ made b.target_path
    ∷ persisted c info_path
    ∷ mounted device b.target_path b.fs_type (mount_options_of b)
    ∷ []

-- An answer that is no error tells what it has found.
check_mount_point-ok :
    (answer : Bool × Option Fault) (b : Bool) → check_mount_point answer ≡ ok b → answer.0 ≡ b
unfolding check_mount_point
check_mount_point-ok (found, none) b e = cc e
check_mount_point-ok (found, some fault) b e = ground (arith, e)

module _ {W : Type 0} (h : Host W) (c : Connector) (b : IscsiDiskMounter) (info_path : Text)
    (old : List Change) (w : W) where
  abbrev Log : Type 0
  Log = W × List Change

  -- Connecting gives the device.
  abbrev pub Gives : Text → Type 0
  Gives device = ((h.connect c w).0 ≡ ok device) × (is_blank device ≡ false)

  -- Once connected, whether the target path is seen as no mount point.
  abbrev pub no_mount_point : Bool
  no_mount_point = (h.is_likely_not_mount_point b.target_path (h.connect c w).1).0.0

  -- Connected only, or all of it.
  abbrev pub Attached : Text → Log → Type 0
  Attached _ s =
      (device : Text) × Gives device
      × (((no_mount_point ≡ false) × (s.1 ≡ connected c ∷ old))
          ⊎ ((no_mount_point ≡ true) × (s.1 ≡ onto (attach_plan c b info_path device) old)))

  -- A beginning of it.
  abbrev pub Begun : Log → Type 0
  Begun s =
      (s.1 ≡ connected c ∷ old)
      ⊎ ((device : Text) × (done : List Change) × (rest : List Change) × Gives device
          × (no_mount_point ≡ true)
          × (attach_plan c b info_path device ≡ done ++ rest)
          × (s.1 ≡ onto done old))

  mount_device-Finishes :
      (device : Text) (w' : W)
      → Gives device
      → no_mount_point ≡ true
      → Finishes Attached Begun
          (mount_device (recorded h) c b info_path device (w', connected c ∷ old))
  unfolding mount_device
  mount_device-Finishes device w' given free =
      Finishes-bind Attached Begun ((recorded h).mkdir_all b.target_path) _ (w', connected c ∷ old)
        (λ _ _.
          Finishes-bind Attached Begun
            (reword (λ _. lit "unable to create persistence file for connection")
              ((recorded h).persist_connector c info_path))
            _ _
            (λ _ _.
              Finishes-bind Attached Begun
                ((recorded h).format_and_mount device b.target_path b.fs_type (mount_options_of b))
                _ _ (λ _ _. (device, given, inr (free, refl)))
                (inr (device, attach_plan c b info_path device, [], given, free, refl, refl)))
            (inr (
              device,
              connected c ∷ made b.target_path ∷ persisted c info_path ∷ [],
              mounted device b.target_path b.fs_type (mount_options_of b) ∷ [],
              given,
              free,
              refl,
              refl,
            )))
        (inr (
          device,
          connected c ∷ made b.target_path ∷ [],
          persisted c info_path ∷ mounted device b.target_path b.fs_type (mount_options_of b) ∷ [],
          given,
          free,
          refl,
          refl,
        ))

  unless_mounted-Finishes :
      (device : Text) (w' : W) (not_mount_point : Bool)
      → Gives device
      → no_mount_point ≡ not_mount_point
      → Finishes Attached Begun
          (unless_mounted (recorded h) c b info_path device not_mount_point (w', connected c ∷ old))
  unfolding unless_mounted
  unless_mounted-Finishes device w' true given free = mount_device-Finishes device w' given free
  unless_mounted-Finishes device w' false given taken = (device, given, inl (taken, refl))

  -- At a value AttachDisk has asked the host to connect, and then, unless the target path was seen as a
  -- mount point, to make the directory, to persist the connector and to mount the device, in this
  -- order; at an error for a beginning of these.
  pub attach_connected-Finishes :
      Finishes Attached Begun (attach_connected (recorded h) c b info_path (w, old))
  unfolding attach_connected check_target
  attach_connected-Finishes =
      Finishes-bind Attached Begun ((recorded h).connect c) _ (w, old)
        (λ device reached. elim (Bool-cases (is_blank device)) [
          | inl blank ↦ rw blank (inl refl)
          | inr given ↦ rw given (
              Finishes-bind Attached Begun
                (λ s.
                  let (answer, s') = (recorded h).is_likely_not_mount_point b.target_path s in
                  (check_mount_point answer, s'))
                (unless_mounted (recorded h) c b info_path device) _
                (λ not_mount_point told.
                  unless_mounted-Finishes device _ not_mount_point (reached, given)
                    (check_mount_point-ok _ not_mount_point told))
                (inl refl))
        ])
        (inl refl)

-- With a connector AttachDisk does not panic.
pub attach_disk-some :
    {W : Type 0} (h : Host W) (c : Connector) (b : IscsiDiskMounter) (info_path : Text) (w : W)
    → b.connector ≡ some c
    → attach_disk h b info_path w
      ≡ (let (r, w') = attach_connected h c b info_path w in (reply r, w'))
unfolding attach_disk
attach_disk-some h c b info_path w e = rw e
