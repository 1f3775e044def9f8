-- ===== src/Examples/Start.antt =====
-- Run where every call succeeds, and ValidateVolumeCapabilities on the NAS in memory.
use qnap_csi.Base.{◌≡◌, ◌↔◌, refl, false, none, some, List, [], ◌∷◌, lit, ok}
use qnap_csi.Base.Int.{pos}
use qnap_csi.Driver.Handler.{not_found}
use qnap_csi.Driver.Node.Attach.Order.{Finishes}
use qnap_csi.Driver.Server.{Os, Running, new_driver, run}
use qnap_csi.Driver.Server.Ready.{IsReady, IsNotReady, run-ready}
use qnap_csi.Qnap.Types.{StorageIscsiTargetInfo}
use qnap_csi.Driver.Volumes.{validate_volume_capabilities}
use qnap_csi.Driver.Volumes.Confirmed.{
  IsReply, Answered, confirmed, validate_volume_capabilities_iff,
}
use qnap_csi.Driver.Create.Listed.{HasNamed}
use qnap_csi.Driver.Create.Taken.{HasCode}
use qnap_csi.Driver.Handler.{Ends}
use qnap_csi.Examples.Nas.{nas_client, libraries, writer, two_targets}

abbrev pub os : Os (Unit {0})
os = record {
  parse_url =
      λ endpoint. ok (record { scheme = lit "unix"; host = []; path = lit "/csi/csi.sock" });
  remove = λ path w. (none, w);
  mkdir_all = λ path w. (ok tt, w);
  listen = λ network address w. (ok tt, w);
}

abbrev pub started : Running (Unit {0})
started = record {
  server =
      new_driver (lit "v0.1.0") (lit "unix:///csi/csi.sock") (lit "http://10.0.0.2:8080")
        (lit "admin") (lit "secret") (lit "node-1") (lit "10.0.0.2:3260") (pos 1);
  host = tt;
}

pub not_ready : started.server.ready ≡ false
unfolding new_driver
not_ready = refl

run-ready_example : Finishes (IsReady os started.server.endpoint) (IsNotReady os) (run os started)
run-ready_example = run-ready os started not_ready

validate_volume_capabilities_iff_example :
    let answer =
      validate_volume_capabilities nas_client libraries
        (lit "b2")
        (some (writer ∷ []))
        two_targets in
    (IsReply answer.0 ↔ (
      (ts : List StorageIscsiTargetInfo) × Answered nas_client
        (lit "b2")
        (some (writer ∷ []))
        two_targets
        ts
      × HasNamed (lit "b2") ts))
    × (HasCode not_found answer.0 ↔ (
        (ts : List StorageIscsiTargetInfo) × Answered nas_client
          (lit "b2")
          (some (writer ∷ []))
          two_targets
          ts
        × (HasNamed (lit "b2") ts → ⊥)))
    × Ends (confirmed nas_client libraries) (
        validate_volume_capabilities nas_client libraries
          (lit "b2")
          (some (writer ∷ []))
          two_targets)
validate_volume_capabilities_iff_example =
    validate_volume_capabilities_iff nas_client libraries (lit "b2") (some (writer ∷ []))
      two_targets
