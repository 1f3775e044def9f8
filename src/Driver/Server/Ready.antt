-- ===== src/Driver/Server/Ready.antt =====
-- When Run gets the driver ready.
use qnap_csi.Base.{◌≡◌, refl, Bool, true, false, Text, lit, ok}
use qnap_csi.Go.Path.{join_path, dir}
use qnap_csi.Driver.Identity.{probe}
use qnap_csi.Driver.Node.Attach.Order.{Finishes}
use qnap_csi.Driver.Server.{Os, Url, Server, Running, run}
use qnap_csi.Driver.Server.Steps.{run-Finishes}

module _ {W : Type 0} (os : Os W) where
  -- Ready, on a unix socket, with the configuration directory beside the socket.
  abbrev pub IsReady : Text → Unit {0} → Running W → Type 0
  IsReady endpoint _ s =
      (probe s.server.ready ≡ true)
      × ((u : Url) × (os.parse_url endpoint ≡ ok u)
          × (u.scheme ≡ lit "unix")
          × (s.server.config.config_dir ≡ join_path (dir u.path) (lit "config")))

  abbrev pub IsNotReady : Running W → Type 0
  IsNotReady s = probe s.server.ready ≡ false

  -- On a driver that is not ready: where Run gets to serve, Probe answers that it is ready, the
  -- scheme of the endpoint is unix, and the configuration directory is `config` in the directory
  -- of the socket; where Run returns an error before, Probe answers that it is not ready.
  pub run-ready :
      (s : Running W)
      → s.server.ready ≡ false
      → Finishes (IsReady s.server.endpoint) IsNotReady (run os s)
  unfolding probe
  run-ready s new =
      run-Finishes os (IsReady s.server.endpoint) IsNotReady s (λ _. new) (λ _ _. new)
        (λ u _ parsed unix. (refl, (u, parsed, unix, refl)))

-- The fields of the driver that Run leaves.
pub record Same (s t : Server) : Type 0 where
  pub endpoint : t.endpoint ≡ s.endpoint
  pub client : t.client ≡ s.client
  pub name : t.config.name ≡ s.config.name
  pub version : t.config.version ≡ s.config.version
  pub storage_pool_id : t.config.storage_pool_id ≡ s.config.storage_pool_id
  pub node_id : t.config.node_id ≡ s.config.node_id
  pub portal : t.config.portal ≡ s.config.portal

-- With another directory and another readiness.
set-Same :
    (s : Server) (dir : Text) (ready : Bool)
    → Same s (record s { config = record s.config { config_dir = dir }; ready = ready })
set-Same s dir ready = record {
  endpoint = refl;
  client = refl;
  name = refl;
  version = refl;
  storage_pool_id = refl;
  node_id = refl;
  portal = refl;
}

pub run-Same :
    {W : Type 0} (os : Os W) (s : Running W)
    → Finishes (λ _ t. Same s.server t.server) (λ t. Same s.server t.server) (run os s)
run-Same os s =
    run-Finishes os (λ _ t. Same s.server t.server) (λ t. Same s.server t.server) s
      (λ _. set-Same s.server s.server.config.config_dir s.server.ready)
      (λ u _. set-Same s.server (join_path (dir u.path) (lit "config")) s.server.ready)
      (λ u _ _ _. set-Same s.server (join_path (dir u.path) (lit "config")) true)
