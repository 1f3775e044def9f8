-- ===== src/Examples/Serving.antt =====
-- A gRPC server that keeps only whether it is asked to stop, and a service that is stopped.
use qnap_csi.Base.{◌≡◌, refl, ◌⊎◌, ◌≢◌, inl, Bool, true, false, none, [], lit, ok}
use qnap_csi.Examples.Start.{os, started, not_ready}
use qnap_csi.Driver.Server.{Url, run}
use qnap_csi.Driver.Server.Healthy.{Sound, run_serves}
use qnap_csi.Driver.Server.Serving.{
  Grpc, Serving, returned, stopping, begin, caught, unready, stop, cancel, spawn, call, return,
  wake, unset_ready, call_stop, Steps, here, later,
}
use qnap_csi.Driver.Server.Serving.Readiness.{GrpcContract, Answers, serving-ready}
use qnap_csi.Driver.Server.Serving.Stop.{CanStop, serving-stops}

abbrev csi_url : Url
csi_url = record { scheme = lit "unix"; host = []; path = lit "/csi/csi.sock" }

abbrev grpc : Grpc Bool
grpc = record {
  new_server = false;
  serve = λ asked. asked;
  graceful_stop = λ _. true;
  Moves = λ asked asked'. asked' ≡ asked;
  Returns = λ asked e. (asked ≡ true) × (e ≡ none);
}

abbrev grpc-Contract : GrpcContract grpc
grpc-Contract = record {
  is_asked = λ asked. asked;
  new_server = refl;
  graceful_stop = λ _. refl;
  serve = λ _. refl;
  moves = λ asked asked' e. e;
  returns = λ asked h. h.0;
}

os-Sound : Sound os
os-Sound = record {
  remove = λ path w. inl refl;
  mkdir_all = λ path w. (tt, refl);
  listen = λ network address w. (tt, refl);
}

started_url : os.parse_url started.server.endpoint ≡ ok csi_url
unfolding lit
started_url = refl

serves : (run os started).0 ≡ ok tt
serves = run_serves os os-Sound started csi_url started_url refl

abbrev stopped : Serving Bool
stopped = record {
  server = record (run os started).1.server { ready = false };
  grpc = true;
  cancelled = true;
  main = returned none;
  watcher = stopping;
}

stopped-Steps : Steps grpc (begin grpc (run os started).1.server) stopped
unfolding begin caught unready stop
stopped-Steps =
    later
      (later
        (later (later (later (later (later here (spawn refl)) (call refl)) cancel) (wake refl refl))
          (unset_ready refl))
        (call_stop refl))
      (return none refl (refl, refl))

serving-ready_example :
    ((stopped.cancelled ≡ true) ⊎ Answers true stopped)
    × ((grpc-Contract.is_asked stopped.grpc ≡ false)
        ⊎ ((stopped.cancelled ≡ true) × Answers false stopped))
    × ((stopped.main ≢ returned none) ⊎ ((stopped.cancelled ≡ true) × Answers false stopped))
serving-ready_example =
    serving-ready grpc grpc-Contract os started stopped not_ready serves stopped-Steps

-- As soon as the service begins.
abbrev begun : Serving Bool
begun = begin grpc (run os started).1.server

serving-stops_example : CanStop grpc grpc-Contract begun
serving-stops_example = serving-stops grpc grpc-Contract os started begun not_ready serves here
