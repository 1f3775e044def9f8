-- ===== src/Examples/Calls.antt =====
-- Calls one behind the other on the NAS in memory.
use mathlib.Core.Path.{subst}
use qnap_csi.Base.{
  map, ◌≡◌, refl, ap, ◌∙◌, false, [], ◌∷◌, lit, text_eq, is_blank, arith, All, List,
}
use qnap_csi.Name.{clean_iscsi_name, kept, is_upper, is_kept}
use qnap_csi.Qnap.Contract.{AreDistinct, has_name, volumes_of}
use qnap_csi.Driver.Handler.{
  Outcome, reply, status, panics, still_waiting, Ending, Ends, both, errs, Never, already_exists,
}
use qnap_csi.Driver.Create.{Volume, create_volume}
use qnap_csi.Driver.Create.Complete.{GivesIqns, create_volume_replies}
use qnap_csi.Driver.Create.Refines.{adds}
use qnap_csi.Driver.Create.Replies.{IsVolumeFor, replied, create_volume-replied}
use qnap_csi.Driver.Create.Taken.{HasCode}
use qnap_csi.Driver.Delete.{delete_volume}
use qnap_csi.Driver.Delete.Healthy.{delete_volume-errs}
use qnap_csi.Driver.Calls.{Call, creates, deletes, serve_all}
use qnap_csi.Driver.Calls.Distinct.{serve_all-AreDistinct}
use qnap_csi.Driver.Calls.Pairs.{
  replies_leaving, create_volume-delete_volume, delete_volume-twice, create_volume-twice,
}
use qnap_csi.Examples.Nas.{Nas, nas_client, with_iqn, libraries, config, request, two_targets}
use qnap_csi.Examples.Contract.{nas-Contract, two_targets-AreDistinct}
use qnap_csi.Examples.Creation.{nas-Healthy, nas-settles, request-IsValid}
use qnap_csi.Examples.Volumes.{nas-Deletes}

-- The calls of two pods, the first of which is repeated.
abbrev calls : List Call
calls = creates 3 request ∷ creates 3 request ∷ deletes (lit "a1") ∷ []

serve_all-AreDistinct_example :
    AreDistinct (volumes_of (serve_all nas_client libraries config calls two_targets))
serve_all-AreDistinct_example =
    serve_all-AreDistinct nas_client nas-Contract libraries config calls two_targets
      two_targets-AreDistinct

nas-GivesIqns : GivesIqns nas_client nas-Contract
unfolding is_blank lit
nas-GivesIqns w ts told = subst (All (λ t. is_blank t.iqn ≡ false)) (cc told) (given w)
  where
    given : (ts : Nas) → All (λ t. is_blank t.iqn ≡ false) (map with_iqn ts)
    given [] = tt
    given (t ∷ ts) = (refl, given ts)

new_name : has_name (clean_iscsi_name request.name) (volumes_of two_targets) ≡ false
unfolding clean_iscsi_name kept is_upper is_kept text_eq lit
new_name = refl

create_volume_replies_example :
    Ends
      (both (adds nas_client nas-Contract two_targets) (errs Never))
      (create_volume nas_client libraries config 3 request two_targets)
create_volume_replies_example =
    create_volume_replies nas_client nas-Contract nas-Healthy nas-GivesIqns libraries config 1 3
      5368709120 request two_targets request-IsValid new_name nas-settles (omega arith)

-- A reply, where there is no error and no wait.
replied_value :
    {W A : Type 0} (r : Outcome A × W) → Ends (errs Never) r → (a : A) × (r ≡ (reply a, r.1))
replied_value (reply a, w) h = (a, refl)
replied_value (status code message, w) h = absurd h
replied_value (panics, w) h = absurd h
replied_value (still_waiting, w) h = absurd h

without_error :
    {W A : Type 0} (E : Ending W A) (r : Outcome A × W)
    → Ends (both E (errs Never)) r
    → Ends (errs Never) r
without_error E (reply a, w) h = tt
without_error E (status code message, w) h = h.1
without_error E (panics, w) h = h
without_error E (still_waiting, w) h = h.1

abbrev made_at : Nas
made_at = (create_volume nas_client libraries config 3 request two_targets).1

made :
    (v : Volume) × (create_volume nas_client libraries config 3 request two_targets
      ≡ (reply v, made_at))
made = replied_value (create_volume nas_client libraries config 3 request two_targets) (
    without_error (adds nas_client nas-Contract two_targets)
      (create_volume nas_client libraries config 3 request two_targets)
      (create_volume_replies nas_client nas-Contract nas-Healthy nas-GivesIqns libraries config 1 3
        5368709120 request two_targets request-IsValid new_name nas-settles (omega arith)))

cleaned : is_blank (clean_iscsi_name request.name) ≡ false
unfolding clean_iscsi_name kept is_upper is_kept lit is_blank
cleaned = refl

made_id : is_blank made.0.volume_id ≡ false
made_id =
    let (given, caps, id, size, context) : IsVolumeFor nas_client libraries config request made.0
        made_at =
      subst (Ends (replied nas_client libraries config request)) made.1
        (create_volume-replied nas_client libraries config 3 request two_targets) in
    ap is_blank id ∙ cleaned

create_volume-delete_volume_example :
    Ends
      (replies_leaving nas_client nas-Contract two_targets)
      (delete_volume nas_client made.0.volume_id made_at)
create_volume-delete_volume_example =
    create_volume-delete_volume nas_client nas-Contract libraries config 3 request made.0
      two_targets made_at nas-Deletes two_targets-AreDistinct made.1 made_id

create_volume-twice_example :
    HasCode already_exists (create_volume nas_client libraries config 5 request made_at).0
create_volume-twice_example =
    create_volume-twice nas_client nas-Contract libraries config 3 5 request made.0 two_targets
      made_at (λ w. (tt, refl)) (λ w. (_, refl)) made.1

b2_given : is_blank (lit "b2") ≡ false
unfolding is_blank lit
b2_given = refl

gone :
    delete_volume nas_client (lit "b2") two_targets
    ≡ (reply tt, (delete_volume nas_client (lit "b2") two_targets).1)
gone =
    (replied_value (delete_volume nas_client (lit "b2") two_targets)
      (delete_volume-errs nas_client nas-Deletes (lit "b2") two_targets b2_given)).1

delete_volume-twice_example :
    Ends
      (replies_leaving nas_client nas-Contract (delete_volume nas_client (lit "b2") two_targets).1)
      (delete_volume nas_client (lit "b2") (delete_volume nas_client (lit "b2") two_targets).1)
delete_volume-twice_example =
    delete_volume-twice nas_client nas-Contract (lit "b2") two_targets
      (delete_volume nas_client (lit "b2") two_targets).1 nas-Deletes two_targets-AreDistinct gone
      b2_given
