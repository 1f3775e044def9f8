-- ===== src/Driver/Node/Disk.antt =====
-- What NodePublishVolume is told of a disk: driver/iscsi_iscsi.go. The JSON decoder and the structs
-- Connector and Secrets of csi-lib-iscsi come from libraries; of the structs the fields that the
-- code sets stand here.
pub mod Laws
pub mod Contexts
pub mod Info
pub mod Chap
use qnap_csi.Base.{
  ℕ, ◌-◌, ◌%◌, ◌^◌, Bool, true, false, not, ◌&&◌, ◌||◌, Option, none, some, List, [], ◌∷◌, ◌++◌,
  map, Text, lit, text_eq, is_blank, Result, ok, err, ◌==◌, if◌then◌else◌,
}
use qnap_csi.Base.Int.{ℤ, pos, negsuc, int32_of}
use qnap_csi.Go.Decimal.{atoi}
use qnap_csi.Go.Strings.{contains_byte}
use qnap_csi.Qnap.Session.{◌>>=◌}

-- A map[string]string.
abbrev pub Fields : Type 0
Fields = List (Text × Text)

pub record Json : Type 0 where
  -- Into a map[string]string.
  pub string_map : Text → Option Fields
  -- Into a []string.
  pub string_list : Text → Result (List Text)

pub record Secrets : Type 0 where
  pub secrets_type : Text
  pub user_name : Text
  pub password : Text
  pub user_name_in : Text
  pub password_in : Text

abbrev pub no_secrets : Secrets
no_secrets = record {
  secrets_type = [];
  user_name = [];
  password = [];
  user_name_in = [];
  password_in = [];
}

pub record IscsiDisk : Type 0 where
  pub portals : List Text
  pub iqn : Text
  pub lun : ℤ
  pub iface : Text
  pub chap_discovery : Bool
  pub chap_session : Bool
  pub secret : Fields
  pub session_secret : Secrets
  pub discovery_secret : Secrets
  pub initiator_name : Text
  pub vol_name : Text

pub record Connector : Type 0 where
  pub volume_name : Text
  pub target_iqn : Text
  pub target_portals : List Text
  pub lun : ℤ
  pub session_secrets : Secrets
  pub discovery_secrets : Secrets
  pub do_discovery : Bool

pub record MountVolume : Type 0 where
  pub fs_type : Text
  pub mount_flags : List Text

-- The capability, where there is one, may have a mount in it.
pub record NodePublishVolumeRequest : Type 0 where
  pub volume_id : Text
  pub target_path : Text
  pub volume_context : Fields
  pub read_only : Bool
  pub volume_capability : Option (Option MountVolume)

pub record IscsiDiskMounter : Type 0 where
  pub disk : IscsiDisk
  pub read_only : Bool
  pub fs_type : Text
  pub mount_options : List Text
  pub target_path : Text
  pub connector : Option Connector

-- `v, ok := m[key]`
unfoldable pub lookup : Text → Fields → Option Text
lookup key [] = none
lookup key ((k, v) ∷ m) = let rest = lookup key m in if text_eq k key then some v else rest

or_empty : Option Text → Text
or_empty none = []
or_empty (some v) = v

-- `m[key]`
unfoldable pub get : Fields → Text → Text
unfolding or_empty
get m key = or_empty (lookup key m)

pub portal_mounter : Text → Text
portal_mounter portal = if not (contains_byte portal b':') then portal ++ lit ":3260" else portal

-- A text that is no JSON map counts as no secret.
pub parse_secret : Json → Text → Fields
parse_secret json params = elim (json.string_map params) [ none ↦ [] | some m ↦ m ]

required : Fields → Text → Result Text
required secret key = elim (lookup key secret) [
  | none ↦ err (key ++ lit " not found in secret")
  | some v ↦ ok v
]

parse_secrets : Text → Text → Text → Text → Fields → Result Secrets
unfolding required
parse_secrets user pass user_in pass_in [] = ok no_secrets
parse_secrets user pass user_in pass_in (f ∷ fs) = do
  user_name ← required (f ∷ fs) user
  password ← required (f ∷ fs) pass
  user_name_in ← required (f ∷ fs) user_in
  password_in ← required (f ∷ fs) pass_in
  ok (record {
    secrets_type = lit "chap";
    user_name = user_name;
    password = password;
    user_name_in = user_name_in;
    password_in = password_in;
  })

pub parse_session_secret : Fields → Result Secrets
unfolding parse_secrets
parse_session_secret =
    parse_secrets (lit "node.session.auth.username") (lit "node.session.auth.password")
      (lit "node.session.auth.username_in") (lit "node.session.auth.password_in")

pub parse_discovery_secret : Fields → Result Secrets
unfolding parse_secrets
parse_discovery_secret =
    parse_secrets (lit "node.sendtargets.auth.username") (lit "node.sendtargets.auth.password")
      (lit "node.sendtargets.auth.username_in") (lit "node.sendtargets.auth.password_in")

-- int32 of an int.
int32_of_int : ℤ → ℤ
int32_of_int (pos n) = int32_of n
int32_of_int (negsuc n) = int32_of (2 ^ 32 - 1 - n % 2 ^ 32)

disk_of : Text → Fields → Fields → Secrets → Secrets → List Text → ℤ → IscsiDisk
disk_of id context secret session discovery portals lun = record {
  portals = portal_mounter (get context (lit "targetPortal")) ∷ map portal_mounter portals;
  iqn = get context (lit "iqn");
  lun = int32_of_int lun;
  iface = get context (lit "iscsiInterface");
  chap_discovery = text_eq (get context (lit "discoveryCHAPAuth")) (lit "true");
  chap_session = text_eq (get context (lit "sessionCHAPAuth")) (lit "true");
  secret = secret;
  session_secret = session;
  discovery_secret = discovery;
  initiator_name = get context (lit "initiatorName");
  vol_name = id;
}

complete : Json → Text → Fields → Fields → Result IscsiDisk
unfolding disk_of
complete json id context secret = do
  session ← parse_session_secret secret
  discovery ← parse_discovery_secret secret
  portals ← json.string_list (get context (lit "portals"))
  lun ← atoi (get context (lit "lun"))
  ok (disk_of id context secret session discovery portals lun)

pub get_iscsi_info : Json → Text → Fields → Result IscsiDisk
unfolding complete
get_iscsi_info json id context =
    if is_blank (get context (lit "targetPortal"))
      || is_blank (get context (lit "iqn"))
      || is_blank (get context (lit "lun"))
    then err (lit "ISCSI target information is missing")
    else complete json id context (parse_secret json (get context (lit "secret")))

-- `s == Secrets{}`
is_no_secrets : Secrets → Bool
is_no_secrets s =
    is_blank s.secrets_type
    && is_blank s.user_name
    && is_blank s.password
    && is_blank s.user_name_in
    && is_blank s.password_in

has_no_portals : List Text → Bool
has_no_portals [] = true
has_no_portals (_ ∷ _) = false

-- `none` is nil.
pub build_iscsi_connector : IscsiDisk → Option Connector
unfolding is_no_secrets has_no_portals
build_iscsi_connector disk =
    if is_blank disk.vol_name || is_blank disk.iqn || has_no_portals disk.portals
    then none
    else some (record {
      volume_name = disk.vol_name;
      target_iqn = disk.iqn;
      target_portals = disk.portals;
      lun = disk.lun;
      session_secrets = disk.session_secret;
      discovery_secrets =
          if is_no_secrets disk.session_secret then no_secrets else disk.discovery_secret;
      do_discovery = true;
    })

mount_of : Option (Option MountVolume) → MountVolume
mount_of none = record { fs_type = []; mount_flags = [] }
mount_of (some none) = record { fs_type = []; mount_flags = [] }
mount_of (some (some m)) = m

pub get_iscsi_disk_mounter : IscsiDisk → NodePublishVolumeRequest → IscsiDiskMounter
unfolding mount_of
get_iscsi_disk_mounter disk req = record {
  disk = disk;
  read_only = req.read_only;
  fs_type = (mount_of req.volume_capability).fs_type;
  mount_options = (mount_of req.volume_capability).mount_flags;
  target_path = req.target_path;
  connector = build_iscsi_connector disk;
}

-- Its mounter and its exec are the host's.
pub record IscsiDiskUnmounter : Type 0 where
  pub disk : IscsiDisk

-- Of the disk only the volume's name is known.
pub get_iscsi_disk_unmounter : Text → IscsiDiskUnmounter
get_iscsi_disk_unmounter volume_id = record {
  disk = record {
    portals = [];
    iqn = [];
    lun = pos 0;
    iface = [];
    chap_discovery = false;
    chap_session = false;
    secret = [];
    session_secret = no_secrets;
    discovery_secret = no_secrets;
    initiator_name = [];
    vol_name = volume_id;
  };
}
