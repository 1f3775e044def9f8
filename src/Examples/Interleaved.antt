-- ===== src/Examples/Interleaved.antt =====
-- CreateVolume on the NAS in memory while other handlers log in, make a target and delete one.
use qnap_csi.Base.{◌≤◌, refl, [], ◌∷◌, List, lit, text_eq, All, arith}
use qnap_csi.Base.Int.{pos}
use qnap_csi.Name.{clean_iscsi_name, kept, is_upper, is_kept}
use qnap_csi.Qnap.Contract.{volumes_of}
use qnap_csi.Driver.Handler.{Ends}
use qnap_csi.Driver.Create.{create_volume}
use qnap_csi.Driver.Calls.Interleaved.{
  Act, logs_in, lists, creates_target, deletes_target, interleaved,
}
use qnap_csi.Driver.Calls.Interleaved.Once.{times, Spares, once, create_volume-interleaved}
use qnap_csi.Examples.Nas.{nas_client, libraries, config, request, two_targets}
use qnap_csi.Examples.Contract.{nas-Contract}

abbrev schedule : List (List Act)
schedule =
    (logs_in ∷ [])
    ∷ []
    ∷ (creates_target (lit "other") ∷ lists ∷ [])
    ∷ []
    ∷ (deletes_target (pos 1) ∷ [])
    ∷ []

absent : times (clean_iscsi_name request.name) (volumes_of two_targets) ≤ 1
unfolding clean_iscsi_name kept is_upper is_kept text_eq lit
absent = omega arith

schedule-Spares : All (All (Spares (clean_iscsi_name request.name))) schedule
unfolding clean_iscsi_name kept is_upper is_kept text_eq lit
schedule-Spares = ((tt, tt), (tt, ((refl, (tt, tt)), (tt, ((tt, tt), tt)))))

create_volume-interleaved_example :
    Ends
      (once nas_client nas-Contract libraries config (clean_iscsi_name request.name))
      (create_volume (interleaved nas_client) libraries config 3 request (two_targets, schedule))
create_volume-interleaved_example =
    create_volume-interleaved nas_client nas-Contract libraries config 3 request two_targets
      schedule absent schedule-Spares
