-- ===== src/Driver/Server.antt =====
-- NewDriver, and Run of driver/driver.go up to the point where it serves. url.Parse and the calls of
-- the file system and the network are parameters.
pub mod Steps
pub mod Ready
pub mod Healthy
pub mod Serving
use qnap_csi.Base.{
  Bool, true, false, not, Option, none, some, [], ◌++◌, Text, lit, text_eq, is_blank, Result, ok,
  err, if◌then◌else◌,
}
use qnap_csi.Base.Int.{ℤ}
use qnap_csi.Go.Strings.{trim_right}
use qnap_csi.Go.Path.{join_path, dir}
use qnap_csi.Qnap.Client.{Method}
use qnap_csi.Qnap.Session.{Account, new_client}
use qnap_csi.Driver.Config.{Config}
use qnap_csi.Driver.Node.Host.{Fault, ◌>>=◌, ◌>>◌, fail, reword}

pub record Url : Type 0 where
  pub scheme : Text
  pub host : Text
  pub path : Text

pub record Os (W : Type 0) : Type 0 where
  pub parse_url : Text → Result Url
  pub remove : Text → W → Option Fault × W
  pub mkdir_all : Text → Method W (Unit {0})
  pub listen : Text → Text → Method W (Unit {0})

-- The struct Driver. The fields that nothing reads are left out.
pub record Server : Type 0 where
  pub config : Config
  pub endpoint : Text
  pub client : Account
  pub ready : Bool

abbrev pub default_volume_prefix : Text
default_volume_prefix = lit "csi"

abbrev pub default_driver_name : Text
default_driver_name = lit "qnap.terrycain.github.com"

-- For a URL of the NAS that url.Parse accepts.
unfoldable pub new_driver : Text → Text → Text → Text → Text → Text → Text → ℤ → Server
new_driver version endpoint url username password node_id portal storage_pool_id = record {
  config = record {
    name = default_driver_name;
    version = version;
    storage_pool_id = storage_pool_id;
    node_id = node_id;
    portal = portal;
    config_dir = [];
  };
  endpoint = endpoint;
  client = new_client username password url;
  ready = false;
}

-- The state of the driver and of its host.
pub record Running (W : Type 0) : Type 0 where
  pub server : Server
  pub host : W

set_config_dir : Text → Server → Server
set_config_dir path s = record s { config = record s.config { config_dir = path } }

-- `if err != nil && !os.IsNotExist(err)`
check_removed : Text → Option Fault → Result (Unit {0})
check_removed address none = ok tt
check_removed address (some fault) =
    if not fault.is_not_exist
    then err (
        lit "failed to remove old unix domain socket file "
        ++ address
        ++ lit ", error: "
        ++ fault.message)
    else ok tt

-- NewClient refuses a URL that url.Parse refuses.
unfoldable pub built : Result Url → Server → Result Server
built (ok u) drv = ok drv
built (err e) drv = err e

module _ {W : Type 0} (os : Os W) where
  -- NewDriver, which gives the error of NewClient.
  unfoldable pub try_new_driver : Text → Text → Text → Text → Text → Text → Text → ℤ → Result Server
  unfolding built
  try_new_driver version endpoint url username password node_id portal storage_pool_id =
      built (os.parse_url (trim_right url b'/'))
        (new_driver version endpoint url username password node_id portal storage_pool_id)

  -- A call of the host.
  on_host : {A : Type 0} → Method W A → Method (Running W) A
  on_host m s = let (r, w) = m s.host in (r, record { server = s.server; host = w })

  pub address_of : Url → Text
  address_of u = if is_blank u.host then u.path else join_path u.host u.path

  configure : Url → Method (Running W) (Unit {0})
  unfolding set_config_dir
  configure u s = (
    ok tt,
    record {
      server = set_config_dir (join_path (dir u.path) (lit "config")) s.server;
      host = s.host;
    },
  )

  pub set_ready : Bool → Method (Running W) (Unit {0})
  set_ready state s = (ok tt, record { server = record s.server { ready = state }; host = s.host })

  bind : Url → Method (Running W) (Unit {0})
  unfolding on_host check_removed configure
  bind u = do
    on_host (λ w. let (r, w') = os.remove (address_of u) w in (check_removed (address_of u) r, w'))
    reword (λ e. lit "failed to make directories for sock, error: " ++ e)
        (on_host (os.mkdir_all (dir u.path)))
    configure u
    reword (λ e. lit "failed to make directories for config, error: " ++ e)
        (on_host (os.mkdir_all (join_path (dir u.path) (lit "config"))))
    reword (λ e. lit "failed to listen: " ++ e) (on_host (os.listen u.scheme (address_of u)))
    set_ready true

  check_scheme : Url → Method (Running W) (Unit {0})
  unfolding bind
  check_scheme u =
      if not (text_eq u.scheme (lit "unix"))
      then fail (lit "currently only unix domain sockets are supported, have: " ++ u.scheme)
      else bind u

  parse_endpoint : Method (Running W) Url
  parse_endpoint s = (os.parse_url s.server.endpoint, s)

  -- Up to the moment where the driver is ready and serves.
  pub run : Method (Running W) (Unit {0})
  unfolding check_scheme parse_endpoint
  run = reword (λ e. lit "unable to parse address: " ++ e) parse_endpoint >>= check_scheme
