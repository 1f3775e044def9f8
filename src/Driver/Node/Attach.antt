-- ===== src/Driver/Node/Attach.antt =====
-- AttachDisk and DetachDisk of driver/iscsi_util.go. Log lines are left out.
pub mod Order
pub mod Release
pub mod Healthy
pub mod Filed
use qnap_csi.Base.{
  ℕ, zero, suc, Bool, true, false, not, ◌&&◌, Option, none, some, List, [], ◌∷◌, ◌++◌, Text, lit,
  is_blank, Result, ok, err, if◌then◌else◌,
}
use qnap_csi.Base.Int.{ℤ, pos, negsuc, eq_ℤ}
use qnap_csi.Qnap.Client.{Method}
use qnap_csi.Driver.Handler.{Handler, reply, panics}
use qnap_csi.Driver.Node.Disk.{Connector, IscsiDiskMounter, IscsiDiskUnmounter}
use qnap_csi.Driver.Node.Host.{Host, Fault, Loaded, found, faulty, ◌>>=◌, ◌>>◌, pure, fail, reword}

-- `if err != nil && !os.IsNotExist(err)`
check_mount_point : Bool × Option Fault → Result Bool
check_mount_point (not_mount_point, none) = ok not_mount_point
check_mount_point (not_mount_point, some fault) =
    if not fault.is_not_exist
    then err (lit "heuristic determination of mount point failed:" ++ fault.message)
    else ok not_mount_point

pub mount_options_of : IscsiDiskMounter → List Text
mount_options_of b = (if b.read_only then lit "ro" else lit "rw") ∷ b.mount_options

-- `cnt--`
less_one : ℤ → ℤ
less_one (pos zero) = negsuc zero
less_one (pos (suc n)) = pos n
less_one (negsuc n) = negsuc (suc n)

module _ {W : Type 0} (h : Host W) where
  mount_device : Connector → IscsiDiskMounter → Text → Text → Method W Text
  mount_device c b info_path device = do
    h.mkdir_all b.target_path
    reword (λ _. lit "unable to create persistence file for connection")
        (h.persist_connector c info_path)
    h.format_and_mount device b.target_path b.fs_type (mount_options_of b)
    pure device

  unless_mounted : Connector → IscsiDiskMounter → Text → Text → Bool → Method W Text
  unfolding mount_device
  unless_mounted c b info_path device not_mount_point =
      if not not_mount_point then pure [] else mount_device c b info_path device

  check_target : Connector → IscsiDiskMounter → Text → Text → Method W Text
  unfolding unless_mounted check_mount_point
  check_target c b info_path device =
      (λ w.
        let (answer, w') = h.is_likely_not_mount_point b.target_path w in
        (check_mount_point answer, w'))
      >>= unless_mounted c b info_path device

  pub attach_connected : Connector → IscsiDiskMounter → Text → Method W Text
  unfolding check_target
  attach_connected c b info_path = do
    device ← h.connect c
    if is_blank device
        then fail (lit "connect reported success, but no path returned")
        else check_target c b info_path device

  -- The pointer to the connector is followed.
  pub attach_disk : IscsiDiskMounter → Text → Handler W (Result Text)
  attach_disk b info_path w = elim b.connector [
    | none ↦ (panics, w)
    | some c ↦ let (r, w') = attach_connected c b info_path w in (reply r, w')
  ]

  -- `if err := os.RemoveAll(targetPath); err != nil { klog.Errorf(…) }`
  remove_tree : Text → Method W (Unit {0})
  remove_tree path w = (ok tt, (h.remove_all path w).1)

  close : Connector → Text → Text → Method W (Unit {0})
  unfolding remove_tree
  close c target_path info_path = do
    h.disconnect_volume c
    (λ w. (ok tt, h.disconnect c.target_iqn c.target_portals w))
    remove_tree target_path
    h.remove info_path

  release : Connector → Text → Text → ℤ → Method W (Unit {0})
  unfolding close less_one
  release c target_path info_path count =
      h.unmount target_path
      >> (if not (eq_ℤ (less_one count) (pos 0)) then pure tt else close c target_path info_path)

  -- With the connector that AttachDisk has persisted. The error of the last case is a status,
  -- whose text names its code.
  release_loaded : Loaded → Text → Text → ℤ → Method W (Unit {0})
  unfolding release
  release_loaded (found c) target_path info_path count = release c target_path info_path count
  release_loaded (faulty fault) target_path info_path count =
      if fault.is_not_exist
      then pure tt
      else fail (lit "rpc error: code = Internal desc = " ++ fault.message)

  -- Of the unmounter it takes the mounter only.
  pub detach_disk : IscsiDiskUnmounter → Text → Text → Method W (Unit {0})
  unfolding release_loaded
  detach_disk unmounter target_path info_path = do
    count ← h.mount_count target_path
    there ← reword (λ e. lit "error checking if path exists: " ++ e) (h.path_exists target_path)
    if not there then pure tt else λ w.
        let (loaded, w') = h.get_connector_from_file info_path w in
        release_loaded loaded target_path info_path count w'
