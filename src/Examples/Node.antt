-- ===== src/Examples/Node.antt =====
-- The node service on a host where every call succeeds.
use qnap_csi.Base.{
  ◌≡◌, refl, true, false, none, some, [], ◌∷◌, Text, lit, text_eq, is_blank, ok, err, if◌then◌else◌,
}
use qnap_csi.Base.Int.{pos}
use qnap_csi.Driver.Handler.{Ends}
use qnap_csi.Driver.Create.{Plan, volume_of}
use qnap_csi.Driver.Node.Disk.{
  Json, Fields, Connector, IscsiDisk, NodePublishVolumeRequest, no_secrets, portal_mounter,
  get_iscsi_info,
}
use qnap_csi.Driver.Node.Disk.Contexts.{volume_of-context}
use qnap_csi.Driver.Node.Disk.Info.{InfoRead, get_iscsi_info-InfoRead}
use qnap_csi.Driver.Node.Host.{Host, found, recorded}
use qnap_csi.Driver.Node.Attach.Healthy.{Mountable, Releasable, Undone}
use qnap_csi.Driver.Node.Publish.Healthy.{
  replies, IsMounted, node_publish_volume_succeeds, node_unpublish_volume_succeeds,
}
use qnap_csi.Driver.Node.Publish.{
  node_publish_volume, node_unpublish_volume, get_iscsi_lib_config_path,
}
use qnap_csi.Driver.Node.Publish.Mounts.{published, node_publish_volume-mounts}
use qnap_csi.Driver.Node.Publish.Unmounts.{unpublished, node_unpublish_volume-unmounts}
use qnap_csi.Examples.Nas.{config}

abbrev pub iqn : Text
iqn = lit "iqn.2004-04.com.qnap:pvc1"

abbrev host : Host (Unit {0})
host = record {
  connect = λ c w. (ok (lit "/dev/sda"), w);
  is_likely_not_mount_point = λ path w. ((true, none), w);
  mkdir_all = λ path w. (ok tt, w);
  persist_connector = λ c path w. (ok tt, w);
  format_and_mount = λ device path fs options w. (ok tt, w);
  mount_count = λ path w. (ok (pos 1), w);
  path_exists = λ path w. (ok true, w);
  get_connector_from_file = λ path w. (
    found (record {
      volume_name = lit "pvc1";
      target_iqn = iqn;
      target_portals = config.portal ∷ [];
      lun = pos 0;
      session_secrets = no_secrets;
      discovery_secrets = no_secrets;
      do_discovery = true;
    }),
    w,
  );
  unmount = λ path w. (ok tt, w);
  disconnect_volume = λ c w. (ok tt, w);
  disconnect = λ iqn portals w. w;
  remove_all = λ path w. (ok tt, w);
  remove = λ path w. (ok tt, w);
}

-- A decoder of the empty map and the empty list.
abbrev pub json : Json
json = record {
  string_map = λ s. if text_eq s (lit "{}") then some [] else none;
  string_list =
      λ s. if text_eq s (lit "[]") then ok [] else err (lit "unexpected end of JSON input");
}

abbrev pub plan : Plan
plan = record { name = lit "pvc1"; size = pos 5368709120 }

abbrev pub publish_request : NodePublishVolumeRequest
publish_request = record {
  volume_id = lit "pvc1";
  target_path = lit "/mnt/pvc1";
  volume_context = (volume_of config plan iqn).volume_context;
  read_only = false;
  volume_capability = some (some (record { fs_type = lit "ext4"; mount_flags = [] }));
}

node_publish_volume-mounts_example :
    Ends
      (published host json config publish_request [] tt)
      (node_publish_volume (recorded host) json config publish_request (tt, []))
node_publish_volume-mounts_example =
    node_publish_volume-mounts host json config publish_request [] tt

node_unpublish_volume-unmounts_example :
    Ends
      (unpublished host config (lit "pvc1") (lit "/mnt/pvc1") [])
      (node_unpublish_volume (recorded host) config (lit "pvc1") (lit "/mnt/pvc1") (tt, []))
node_unpublish_volume-unmounts_example =
    node_unpublish_volume-unmounts host config (lit "pvc1") (lit "/mnt/pvc1") [] tt

pub empty_list : json.string_list (lit "[]") ≡ ok []
unfolding text_eq lit
empty_list = refl

pub no_map : json.string_map [] ≡ none
unfolding text_eq lit
no_map = refl

pub portal_given : is_blank config.portal ≡ false
unfolding is_blank lit
portal_given = refl

pub iqn_given : is_blank iqn ≡ false
unfolding is_blank lit
iqn_given = refl

volume_of-context_example :
    get_iscsi_info json (lit "pvc1") (volume_of config plan iqn).volume_context
    ≡ ok (record {
      portals = portal_mounter config.portal ∷ [];
      iqn = iqn;
      lun = pos 0;
      iface = [];
      chap_discovery = false;
      chap_session = false;
      secret = [];
      session_secret = no_secrets;
      discovery_secret = no_secrets;
      initiator_name = [];
      vol_name = lit "pvc1";
    })
volume_of-context_example =
    volume_of-context config plan iqn json (lit "pvc1") empty_list no_map portal_given iqn_given

host-Mountable : Mountable host
unfolding is_blank lit
host-Mountable = record {
  connect = λ c w. (lit "/dev/sda", refl, refl);
  mkdir_all = λ path w. (tt, refl);
  persist = λ c path w. (tt, refl);
  mount = λ device path fs options w. (tt, refl);
}

abbrev pub disk : IscsiDisk
disk = record {
  portals = portal_mounter config.portal ∷ [];
  iqn = iqn;
  lun = pos 0;
  iface = [];
  chap_discovery = false;
  chap_session = false;
  secret = [];
  session_secret = no_secrets;
  discovery_secret = no_secrets;
  initiator_name = [];
  vol_name = lit "pvc1";
}

pub id_given : is_blank (lit "pvc1") ≡ false
unfolding is_blank lit
id_given = refl

pub path_given : is_blank (lit "/mnt/pvc1") ≡ false
unfolding is_blank lit
path_given = refl

node_publish_volume_succeeds_example :
    Ends
      (replies host config (λ _. IsMounted host config json publish_request [] tt disk))
      (node_publish_volume (recorded host) json config publish_request (tt, []))
node_publish_volume_succeeds_example =
    node_publish_volume_succeeds host config json publish_request [] tt disk
      (some (record { fs_type = lit "ext4"; mount_flags = [] })) host-Mountable (λ c. refl) refl
      id_given path_given
      (volume_of-context config plan iqn json (lit "pvc1") empty_list no_map portal_given iqn_given)

abbrev on_file : Connector
on_file = record {
  volume_name = lit "pvc1";
  target_iqn = iqn;
  target_portals = config.portal ∷ [];
  lun = pos 0;
  session_secrets = no_secrets;
  discovery_secrets = no_secrets;
  do_discovery = true;
}

host-Releasable : (path info_path : Text) → Releasable host on_file path info_path
host-Releasable path info_path = record {
  unmount = λ w. (tt, refl);
  disconnect_volume = λ w. (tt, refl);
  remove = λ w. (tt, refl);
}

node_unpublish_volume_succeeds_example :
    Ends
      (replies host config
        (Undone host on_file (lit "/mnt/pvc1") (get_iscsi_lib_config_path config (lit "pvc1")) []))
      (node_unpublish_volume (recorded host) config (lit "pvc1") (lit "/mnt/pvc1") (tt, []))
node_unpublish_volume_succeeds_example =
    node_unpublish_volume_succeeds host config on_file (lit "pvc1") (lit "/mnt/pvc1") [] tt
      (host-Releasable _ _) (refl, refl) refl id_given path_given

-- A portal without a port, and a LUN of more than 32 bits.
abbrev wide_context : Fields
wide_context =
    (lit "targetPortal", lit "10.0.0.1")
    ∷ (lit "iqn", iqn)
    ∷ (lit "lun", lit "4294967297")
    ∷ (lit "portals", lit "[]")
    ∷ []

get_iscsi_info-InfoRead_example :
    InfoRead json (lit "pvc1") wide_context (get_iscsi_info json (lit "pvc1") wide_context)
get_iscsi_info-InfoRead_example = get_iscsi_info-InfoRead json (lit "pvc1") wide_context
