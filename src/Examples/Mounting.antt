-- ===== src/Examples/Mounting.antt =====
-- A host with files of connectors and a mount table.
use mathlib.Core.Path.{subst}
use qnap_csi.Base.{
  ℕ, suc, List, ◌∷◌, Text, text_eq, text_eq_refl, if◌then◌else◌, ◌≡◌, ◌≢◌, refl, not, Bool, true,
  false, Option, none, some, [], lit, is_blank, ok,
}
use qnap_csi.Base.Int.{ℤ, pos}
use qnap_csi.Driver.Handler.{Ends, ◌>>◌}
use qnap_csi.Driver.Node.Disk.{Connector, get_iscsi_info, build_iscsi_connector}
use qnap_csi.Driver.Node.Disk.Contexts.{volume_of-context}
use qnap_csi.Driver.Node.Disk.Laws.{get_iscsi_info-connector}
use qnap_csi.Driver.Node.Host.{Host, Loaded, found, faulty, recorded}
use qnap_csi.Driver.Node.Attach.Healthy.{Mountable, Releasable}
use qnap_csi.Driver.Node.Attach.Filed.{HostContract}
use qnap_csi.Driver.Node.Publish.{node_publish_volume, node_unpublish_volume}
use qnap_csi.Driver.Node.Publish.Healthy.{replies}
use qnap_csi.Driver.Node.Publish.Undone.{BackAgain, node_publish_volume-node_unpublish_volume}
use qnap_csi.Examples.Nas.{config}
use qnap_csi.Examples.Node.{
  json, publish_request, disk, plan, iqn, empty_list, no_map, portal_given, iqn_given, id_given,
  path_given,
}

-- Which connector each file holds, and which device each path has, the latest first.
record Mounts : Type 0 where
  files : List (Text × Connector)
  devices : List (Text × Text)

abbrev at : {A : Type 0} → Text → List (Text × A) → Option A
at path [] = none
at path ((p, a) ∷ as') = let rest = at path as' in if text_eq p path then some a else rest

abbrev without : {A : Type 0} → Text → List (Text × A) → List (Text × A)
without path [] = []
without path ((p, a) ∷ as') =
    let rest = without path as' in if text_eq p path then rest else (p, a) ∷ rest

abbrev uses : Text → List (Text × Text) → ℕ
uses device [] = 0
uses device ((p, d) ∷ ds) = let rest = uses device ds in if text_eq d device then suc rest else rest

abbrev has : {A : Type 0} → Option A → Bool
has none = false
has (some a) = true

abbrev count_of : Option Text → List (Text × Text) → ℤ
count_of none ds = pos 0
count_of (some device) ds = pos (uses device ds)

abbrev loaded_of : Option Connector → Loaded
loaded_of none = faulty (record { is_not_exist = true; message = lit "no such file" })
loaded_of (some c) = found c

abbrev host : Host Mounts
host = record {
  connect = λ c w. (ok (lit "/dev/sda"), w);
  is_likely_not_mount_point = λ path w. ((not (has (at path w.devices)), none), w);
  mkdir_all = λ path w. (ok tt, w);
  persist_connector = λ c path w. (ok tt, record w { files = (path, c) ∷ w.files });
  format_and_mount =
      λ device path fs options w. (ok tt, record w { devices = (path, device) ∷ w.devices });
  mount_count = λ path w. (ok (count_of (at path w.devices) w.devices), w);
  path_exists = λ path w. (ok (has (at path w.devices)), w);
  get_connector_from_file = λ path w. (loaded_of (at path w.files), w);
  unmount = λ path w. (ok tt, record w { devices = without path w.devices });
  disconnect_volume = λ c w. (ok tt, w);
  disconnect = λ iqn portals w. w;
  remove_all = λ path w. (ok tt, w);
  remove = λ path w. (ok tt, record w { files = without path w.files });
}

at-first :
    {A : Type 0} (path : Text) (a : A) (as' : List (Text × A)) → at path ((path, a) ∷ as') ≡ some a
at-first path a as' = rw (text_eq_refl path) refl

host-Contract : HostContract host
host-Contract = record {
  on_file = λ path w. at path w.files;
  device_at = λ path w. at path w.devices;
  uses = λ device w. uses device w.devices;
  persist = λ c path w _. at-first path c w.files;
  persist-uses = λ c path device w. refl;
  look-uses = λ path device w. refl;
  mkdir-uses = λ path device w. refl;
  mount = λ device target fs options path w. refl;
  mounted = λ device target fs options w _.
      (at-first target device w.devices, rw (text_eq_refl device) refl);
  mount_count = λ target path w. refl;
  counted = λ target device w e. (rw e refl, e);
  path_exists = λ target path w. refl;
  exists = λ target device w e. rw e refl;
  load = λ path w c e. rw e refl;
}

host-Mountable : Mountable host
unfolding is_blank lit
host-Mountable = record {
  connect = λ c w. (lit "/dev/sda", refl, refl);
  mkdir_all = λ path w. (tt, refl);
  persist = λ c path w. (tt, refl);
  mount = λ device path fs options w. (tt, refl);
}

host-Releasable : (c : Connector) (path info_path : Text) → Releasable host c path info_path
host-Releasable c path info_path = record {
  unmount = λ w. (tt, refl);
  disconnect_volume = λ w. (tt, refl);
  remove = λ w. (tt, refl);
}

-- Another volume is mounted already.
abbrev busy : Mounts
busy = record { files = []; devices = (lit "/mnt/pvc0", lit "/dev/sdb") ∷ [] }

busy-free : at (lit "/mnt/pvc1") busy.devices ≡ none
unfolding text_eq lit
busy-free = refl

sda_absent : uses (lit "/dev/sda") busy.devices ≡ 0
unfolding text_eq lit
sda_absent = refl

ok-injective : {A : Type 0} {a b : A} → ok a ≡ ok b → a ≡ b
ok-injective e = cc e

busy-unused :
    (c : Connector) (device : Text)
    → (host.connect c busy).0 ≡ ok device
    → host-Contract.uses device (host.connect c busy).1 ≡ 0
unfolding host-Contract
busy-unused c device e = subst (λ d. uses d busy.devices ≡ 0) (ok-injective e) sda_absent

told : get_iscsi_info json publish_request.volume_id publish_request.volume_context ≡ ok disk
told = volume_of-context config plan iqn json (lit "pvc1") empty_list no_map portal_given iqn_given

value_of : {A : Type 0} (o : Option A) → o ≢ none → (a : A) × (o ≡ some a)
value_of none h = absurd (h refl)
value_of (some a) h = (a, refl)

connector : (c : Connector) × (build_iscsi_connector disk ≡ some c)
connector = value_of (build_iscsi_connector disk) (
    get_iscsi_info-connector json publish_request.volume_id publish_request.volume_context disk
      id_given told)

node_publish_volume-node_unpublish_volume_example :
    Ends
      (replies host config
        (BackAgain host host-Contract json config publish_request [] busy disk connector.0))
      ((node_publish_volume (recorded host) json config publish_request
          >> node_unpublish_volume
              (recorded host)
              config
              publish_request.volume_id
              publish_request.target_path)
        (busy, []))
node_publish_volume-node_unpublish_volume_example =
    node_publish_volume-node_unpublish_volume host host-Contract json config publish_request [] busy
      disk connector.0 told connector.1 (some (record { fs_type = lit "ext4"; mount_flags = [] }))
      host-Mountable (λ c. rw busy-free refl) (busy-unused connector.0)
      (host-Releasable connector.0 _ _) refl id_given path_given
