-- ===== src/Driver/Server/Steps.antt =====
-- Run step by step.
use qnap_csi.Base.{
  ◌≡◌, refl, true, Bool-cases, inl, inr, ◌++◌, lit, text_eq, text_eq_iff, Result, ok, err,
}
use qnap_csi.Go.Path.{join_path, dir}
use qnap_csi.Driver.Node.Attach.Order.{Finishes, Finishes-bind}
use qnap_csi.Driver.Node.Host.{reword, reworded, after}
use qnap_csi.Driver.Server.{
  Os, Url, Server, Running, address_of, run, bind, check_scheme, parse_endpoint, configure,
  set_ready, on_host, check_removed, set_config_dir,
}

-- With the configuration directory beside the socket.
abbrev pub configured : Url → Server → Server
configured u s = record s {
  config = record s.config { config_dir = join_path (dir u.path) (lit "config") };
}

module _ {W : Type 0} (os : Os W) (P : Unit {0} → Running W → Type 0) (Q : Running W → Type 0) where
  bind-Finishes :
      (u : Url) (s : Running W)
      → ((w : W) → Q (record { server = s.server; host = w }))
      → ((w : W) → Q (record { server = configured u s.server; host = w }))
      → ((w : W)
          → P tt (record { server = record (configured u s.server) { ready = true }; host = w }))
      → Finishes P Q (bind os u s)
  unfolding bind configure set_ready on_host set_config_dir
  bind-Finishes u s q q' p =
      Finishes-bind P Q
        (on_host os (λ w.
          let (r, w') = os.remove (address_of os u) w in (check_removed (address_of os u) r, w')))
        _ s
        (λ _ _.
          Finishes-bind P Q
            (reword (λ e. lit "failed to make directories for sock, error: " ++ e)
              (on_host os (os.mkdir_all (dir u.path))))
            _ _
            (λ _ _.
              Finishes-bind P Q
                (reword (λ e. lit "failed to make directories for config, error: " ++ e)
                  (on_host os (os.mkdir_all (join_path (dir u.path) (lit "config")))))
                _ _
                (λ _ _.
                  Finishes-bind P Q
                    (reword (λ e. lit "failed to listen: " ++ e)
                      (on_host os (os.listen u.scheme (address_of os u))))
                    _ _ (λ _ _. p _) (q' _))
                (q' _))
            (q _))
        (q _)

  -- What holds at an end of Run: P with the configuration directory and the readiness set, for the
  -- URL of the endpoint, Q before.
  pub run-Finishes :
      (s : Running W)
      → ((w : W) → Q (record { server = s.server; host = w }))
      → ((u : Url) (w : W) → Q (record { server = configured u s.server; host = w }))
      → ((u : Url) (w : W)
          → os.parse_url s.server.endpoint ≡ ok u
          → u.scheme ≡ lit "unix"
          → P tt (record { server = record (configured u s.server) { ready = true }; host = w }))
      → Finishes P Q (run os s)
  unfolding run parse_endpoint check_scheme
  run-Finishes s q q' p = go (os.parse_url s.server.endpoint) refl
    where
      go :
          (r : Result Url)
          → os.parse_url s.server.endpoint ≡ r
          → Finishes P Q
              (after (reworded (λ e. lit "unable to parse address: " ++ e) r) (check_scheme os) s)
      go (ok u) parsed = elim (Bool-cases (text_eq u.scheme (lit "unix"))) [
        | inl same ↦ rw same (
            bind-Finishes u s q (q' u)
              (λ w. p u w parsed ((text_eq_iff u.scheme (lit "unix")).0 same)))
        | inr other ↦ rw other (q s.host)
      ]
      go (err e) parsed = q s.host
