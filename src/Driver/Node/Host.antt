-- ===== src/Driver/Node/Host.antt =====
-- What the node service calls on its host: the iSCSI library, the mounter of k8s.io/utils and the
-- file system, as an interface over the state `W` of the host; and a host that keeps a list of
-- the changes it is asked for.
use qnap_csi.Base.{Bool, List, ◌∷◌, Text, Option, Result, ok, err}
use qnap_csi.Base.Int.{ℤ}
use qnap_csi.Qnap.Client.{Method}
use qnap_csi.Driver.Node.Disk.{Connector}

-- An error, and whether os.IsNotExist holds of it.
pub record Fault : Type 0 where
  pub is_not_exist : Bool
  pub message : Text

pub data Loaded : Type 0 where
  found : Connector → Loaded
  faulty : Fault → Loaded

pub record Host (W : Type 0) : Type 0 where
  pub connect : Connector → Method W Text
  pub is_likely_not_mount_point : Text → W → (Bool × Option Fault) × W
  pub mkdir_all : Text → Method W (Unit {0})
  pub persist_connector : Connector → Text → Method W (Unit {0})
  pub format_and_mount : Text → Text → Text → List Text → Method W (Unit {0})
  -- The count that mount.GetDeviceNameFromMount gives.
  pub mount_count : Text → Method W ℤ
  pub path_exists : Text → Method W Bool
  pub get_connector_from_file : Text → W → Loaded × W
  pub unmount : Text → Method W (Unit {0})
  pub disconnect_volume : Connector → Method W (Unit {0})
  pub disconnect : Text → List Text → W → W
  pub remove_all : Text → Method W (Unit {0})
  pub remove : Text → Method W (Unit {0})

infixl 5 ◌>>=◌ ◌>>◌
abbrev pub after : {W A B : Type 0} → Result A → (A → Method W B) → Method W B
after (ok a) f w = f a w
after (err e) f w = (err e, w)

-- `if err != nil { return err }`
abbrev pub ◌>>=◌ : {W A B : Type 0} → Method W A → (A → Method W B) → Method W B
◌>>=◌ m f w = let (r, w') = m w in after r f w'

abbrev pub ◌>>◌ : {W B : Type 0} → Method W (Unit {0}) → Method W B → Method W B
m >> k = m >>= λ _. k

abbrev pub pure : {W A : Type 0} → A → Method W A
pure a w = (ok a, w)

abbrev pub fail : {W A : Type 0} → Text → Method W A
fail message w = (err message, w)

-- An error with another text.
abbrev pub reworded : {A : Type 0} → (Text → Text) → Result A → Result A
reworded f (ok a) = ok a
reworded f (err e) = err (f e)

abbrev pub reword : {W A : Type 0} → (Text → Text) → Method W A → Method W A
reword f m w = let (r, w') = m w in (reworded f r, w')

-- The changes that are asked for, whatever comes of them.
pub data Change : Type 0 where
  connected : Connector → Change
  made : Text → Change
  persisted : Connector → Text → Change
  mounted : Text → Text → Text → List Text → Change
  unmounted : Text → Change
  volume_disconnected : Connector → Change
  disconnected : Text → List Text → Change
  tree_removed : Text → Change
  file_removed : Text → Change

module _ {W : Type 0} where
  abbrev pub reads : {A : Type 0} → (W → A × W) → W × List Change → A × (W × List Change)
  reads m (w, log) = let (r, w') = m w in (r, (w', log))

  abbrev pub changes : {A : Type 0} → Method W A → Change → Method (W × List Change) A
  changes m change (w, log) = let (r, w') = m w in (r, (w', change ∷ log))

  abbrev pub recorded : Host W → Host (W × List Change)
  recorded h = record {
    connect = λ c. changes (h.connect c) (connected c);
    is_likely_not_mount_point = λ path. reads (h.is_likely_not_mount_point path);
    mkdir_all = λ path. changes (h.mkdir_all path) (made path);
    persist_connector = λ c path. changes (h.persist_connector c path) (persisted c path);
    format_and_mount = λ device path fs options.
        changes (h.format_and_mount device path fs options) (mounted device path fs options);
    mount_count = λ path. reads (h.mount_count path);
    path_exists = λ path. reads (h.path_exists path);
    get_connector_from_file = λ path. reads (h.get_connector_from_file path);
    unmount = λ path. changes (h.unmount path) (unmounted path);
    disconnect_volume = λ c. changes (h.disconnect_volume c) (volume_disconnected c);
    disconnect =
        λ iqn portals (w, log). (h.disconnect iqn portals w, disconnected iqn portals ∷ log);
    remove_all = λ path. changes (h.remove_all path) (tree_removed path);
    remove = λ path. changes (h.remove path) (file_removed path);
  }
