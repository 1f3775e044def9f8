-- ===== src/Cmd/Plugin/Starts.antt =====
-- When the command of the plugin runs a driver, and which.
use qnap_csi.Base.{◌≡◌, true, false, ◌⊎◌, [], Text, lit, is_blank, Result, ok, err}
use qnap_csi.Go.Strings.{trim_right}
use qnap_csi.Qnap.Session.{new_client}
use qnap_csi.Driver.Node.Attach.Order.{Finishes}
use qnap_csi.Driver.Server.{Url, Server, Running, new_driver, default_driver_name}
use qnap_csi.Driver.Server.Ready.{IsReady, IsNotReady}
use qnap_csi.Cmd.Plugin.{Flags, Build, Process, Ending, printed, fatal, ran, version_line}

module _ {W L : Type 0} (proc : Process W L) (build : Build) (flags : Flags) where
  -- Those of the environment for the controller, blank ones for the node.
  abbrev pub Credentials : Text → Text → Type 0
  Credentials username password =
      ((flags.controller ≡ true)
        × (username ≡ proc.getenv (lit "QNAP_USERNAME"))
        × (password ≡ proc.getenv (lit "QNAP_PASSWORD")))
      ⊎ ((flags.controller ≡ false) × (username ≡ []) × (password ≡ []))

  -- Run with the flags' driver, and the host with the log level set.
  pub record IsDriver (r : Result (Unit {0})) (s : Running W) : Type 0 where
    pub username : Text
    pub password : Text
    pub credentials : Credentials username password
    pub client : s.server.client ≡ new_client username password flags.url
    pub endpoint : s.server.endpoint ≡ flags.endpoint
    pub name : s.server.config.name ≡ default_driver_name
    pub version : s.server.config.version ≡ build.version
    pub storage_pool_id : s.server.config.storage_pool_id ≡ flags.storage_pool_id
    pub node_id : s.server.config.node_id ≡ flags.node_id
    pub portal : s.server.config.portal ≡ flags.portal
    pub readiness : Finishes (IsReady proc.os flags.endpoint) (IsNotReady proc.os) (r, s)

  driver_of : Text → Text → Server
  driver_of username password =
      new_driver build.version flags.endpoint flags.url username password flags.node_id flags.portal
        flags.storage_pool_id

  -- How the command may end.
  abbrev pub Starts : Ending W → Type 0
  Starts (printed line w) = (flags.version ≡ true) × (line ≡ version_line proc build)
  Starts (fatal message w) =
      (flags.version ≡ false)
      × ((((e : Text) × (proc.parse_level flags.log_level ≡ err e))
            × (message ≡ lit "Failed to parse log level"))
          ⊎ ((((l : L) × (proc.parse_level flags.log_level ≡ ok l))
                × (is_blank flags.node_id ≡ true)
                × (message ≡ lit "Node ID must be specified"))
              ⊎ (((l : L) × (proc.parse_level flags.log_level ≡ ok l))
                  × (is_blank flags.node_id ≡ false)
                  × ((e : Text) × (proc.os.parse_url (trim_right flags.url b'/') ≡ err e))
                  × (message ≡ lit "Failed to init CSI driver"))))
  Starts (ran r s) =
      (flags.version ≡ false)
      × ((l : L) × (proc.parse_level flags.log_level ≡ ok l))
      × (is_blank flags.node_id ≡ false)
      × ((u : Url) × (proc.os.parse_url (trim_right flags.url b'/') ≡ ok u))
      × IsDriver r s
