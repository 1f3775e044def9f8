-- ===== src/Cmd/Plugin.antt =====
-- The command of cmd/qnap-csi-plugin/main.go, behind flag.Parse. Debug lines are left out.
pub mod Arguments
pub mod Starts
use qnap_csi.Base.{
  Bool, true, false, List, [], ◌∷◌, ◌++◌, Text, lit, text_eq, is_blank, Result, ok, err,
  if◌then◌else◌,
}
use qnap_csi.Base.Int.{ℤ, pos}
use qnap_csi.Driver.Server.{
  Os, Server, Running, default_driver_name, default_volume_prefix, try_new_driver, run,
}

pub record Flags : Type 0 where
  pub endpoint : Text
  pub url : Text
  pub log_level : Text
  pub version : Bool
  pub controller : Bool
  pub prefix : Text
  pub node_id : Text
  pub portal : Text
  pub storage_pool_id : ℤ

-- The flags of a command line without any.
pub default_flags : Flags
default_flags = record {
  endpoint = lit "unix:///var/run/" ++ default_driver_name ++ lit "/csi.sock";
  url = [];
  log_level = lit "info";
  version = false;
  controller = false;
  prefix = default_volume_prefix;
  node_id = [];
  portal = [];
  storage_pool_id = pos 1;
}

-- driver.Version, driver.Commit and driver.GitTreeState.
pub record Build : Type 0 where
  pub version : Text
  pub commit : Text
  pub git_tree_state : Text

-- What the command calls beside the driver: the environment, zerolog.ParseLevel, with the levels
-- as what it gives, SetGlobalLevel, and EnableDebugLogging of the iSCSI library.
pub record Process (W L : Type 0) : Type 0 where
  pub os : Os W
  pub getenv : Text → Text
  pub parse_level : Text → Result L
  pub set_global_level : L → W → W
  pub enable_debug_logging : W → W

-- A text that is printed before the command exits with status 0; an error that is logged before it
-- exits with status 1; or an end of Run, an error of which is logged only.
pub data Ending (W : Type 0) : Type 0 where
  printed : Text → W → Ending W
  fatal : Text → W → Ending W
  ran : Result (Unit {0}) → Running W → Ending W

module _ {W L : Type 0} (proc : Process W L) (build : Build) where
  pub version_line : Text
  version_line =
      build.version ++ lit " - " ++ build.commit ++ lit " (" ++ build.git_tree_state ++ lit ")\n"

  -- The driver with these credentials.
  new_driver_of : Flags → Text → Text → Result Server
  new_driver_of flags username password =
      try_new_driver proc.os build.version flags.endpoint flags.url username password flags.node_id
        flags.portal flags.storage_pool_id

  init : Flags → Result Server
  unfolding new_driver_of
  init flags =
      if flags.controller
      then new_driver_of flags (proc.getenv (lit "QNAP_USERNAME"))
          (proc.getenv (lit "QNAP_PASSWORD"))
      else new_driver_of flags [] []

  -- Of the node driver only.
  debug_logging : Flags → W → W
  debug_logging flags w =
      if flags.controller
      then w
      else if text_eq flags.log_level (lit "debug")
      then proc.enable_debug_logging w
      else w

  run_driver : Result Server → W → Ending W
  run_driver (err e) w = fatal (lit "Failed to init CSI driver") w
  run_driver (ok drv) w = let (r, s) = run proc.os (record { server = drv; host = w }) in ran r s

  -- Behind the log level.
  levelled : Flags → Result L → W → Ending W
  unfolding init debug_logging run_driver
  levelled flags (err e) w = fatal (lit "Failed to parse log level") w
  levelled flags (ok level) w =
      if is_blank flags.node_id
      then fatal (lit "Node ID must be specified") (proc.set_global_level level w)
      else run_driver (init flags) (debug_logging flags (proc.set_global_level level w))

  pub main : Flags → W → Ending W
  unfolding levelled version_line
  main flags w =
      if flags.version
      then printed version_line w
      else levelled flags (proc.parse_level flags.log_level) w
