-- ===== src/Driver/Server/Serving/Stop.antt =====
-- The way from any moment of the service to its stop.
use qnap_csi.Base.{◌≡◌, refl, true, false, ok}
use qnap_csi.Driver.Identity.{probe}
use qnap_csi.Driver.Server.{Os, Running, run}
use qnap_csi.Driver.Server.Serving.{
  Grpc, Serving, spawning, Watcher, absent, waiting, woken, unset, stopping, begin, caught, unready,
  stop, Step, cancel, spawn, wake, unset_ready, call_stop, Steps, here, later,
}
use qnap_csi.Driver.Server.Serving.Readiness.{GrpcContract, Inv, reached-Inv}

module _ {G : Type 0} (g : Grpc G) (K : GrpcContract g) where
  -- The gRPC server has been asked to stop, and Probe says not ready.
  abbrev pub IsStopping : Serving G → Type 0
  IsStopping s = (K.is_asked s.grpc ≡ true) × (probe s.server.ready ≡ false)

  abbrev pub CanStop : Serving G → Type 0
  CanStop s = (t : Serving G) × Steps g s t × IsStopping t

  before : {s t : Serving G} → Step g s t → CanStop t → CanStop s
  before {s} {t} st (u, r, h) = (u, go r, h)
    where
      go : {v : Serving G} → Steps g t v → Steps g s v
      go here = later here st
      go (later r' st') = later (go r') st'

  -- From `d.srv.GracefulStop()` on.
  from_unset : (s : Serving G) → s.watcher ≡ unset → s.server.ready ≡ false → CanStop s
  unfolding stop probe
  from_unset s at down = (_, later here (call_stop at), (K.graceful_stop s.grpc, down))

  from_woken : (s : Serving G) → s.watcher ≡ woken → CanStop s
  unfolding unready
  from_woken s at = before (unset_ready at) (from_unset _ refl refl)

  from_waiting : (s : Serving G) → s.watcher ≡ waiting → CanStop s
  unfolding caught
  from_waiting s at = before cancel (before (wake at refl) (from_woken _ refl))

  from_absent : (s : Serving G) → s.main ≡ spawning → CanStop s
  from_absent s at = before (spawn at) (from_waiting _ refl)

  can_stop : (s : Serving G) → Inv g K s → CanStop s
  unfolding probe
  can_stop s v = go s.watcher refl
    where
      go : (w : Watcher) → s.watcher ≡ w → CanStop s
      go absent at = from_absent s (v.awaited at)
      go waiting at = from_waiting s at
      go woken at = from_woken s at
      go unset at = from_unset s at (rw at at v.readiness)
      go stopping at = (s, here, (v.told at, rw at at v.readiness))

  -- Once Run has got to serve: from each state that the two goroutines, the gRPC server and the
  -- signal lead to there are steps to one where the gRPC server has been asked to stop and Probe
  -- answers that the driver is not ready.
  pub serving-stops :
      {W : Type 0} (os : Os W) (s : Running W) (t : Serving G)
      → s.server.ready ≡ false
      → (run os s).0 ≡ ok tt
      → Steps g (begin g (run os s).1.server) t
      → CanStop t
  serving-stops os s t new served r = can_stop t (reached-Inv g K os s new served r)
