-- ===== src/Examples/Creation.antt =====
-- CreateVolume on the NAS in memory.
use qnap_csi.Base.{
  ℕ, ◌≡◌, ◌≢◌, ◌↔◌, refl, false, true, [], ◌∷◌, lit, text_eq, is_blank, arith, list_set, All,
}
use qnap_csi.Base.Int.{ℤ}
use qnap_csi.Qnap.Types.{lun_status_string}
use qnap_csi.Qnap.Client.{listed}
use qnap_csi.Qnap.Ledger.{recorded}
use qnap_csi.Name.{clean_iscsi_name, kept, is_upper, is_kept}
use qnap_csi.Driver.Handler.{Ends, still_waiting, already_exists}
use qnap_csi.Driver.Capabilities.{validate_capabilities}
use qnap_csi.Driver.Create.{create_volume, has_target}
use qnap_csi.Driver.Create.Resources.{volume_left, create_volume_resources}
use qnap_csi.Driver.Create.Reply.{made_for, create_volume_reply}
use qnap_csi.Driver.Create.Listed.{HasNamed, has_target_iff}
use qnap_csi.Driver.Create.Valid.{IsValid}
use qnap_csi.Driver.Create.Taken.{HasCode, Refused, create_volume_exists_iff}
use qnap_csi.Driver.Create.Wait.{settles, create_volume_ends}
use qnap_csi.Driver.Create.Healthy.{Healthy, served, create_volume_succeeds}
use qnap_csi.Driver.Capabilities.Laws.{IsSupported, validate_capabilities_iff}
use qnap_csi.Examples.Nas.{
  Nas, nas_client, libraries, config, request, writer, two_targets, csi_modes, strings-IsFinSet,
}

create_volume_resources_example :
    Ends
      (volume_left [])
      (create_volume (recorded nas_client) libraries config 3 request (two_targets, []))
create_volume_resources_example =
    create_volume_resources nas_client libraries config 3 request (two_targets, [])

create_volume_reply_example :
    Ends
      (made_for nas_client libraries config request [])
      (create_volume (recorded nas_client) libraries config 3 request (two_targets, []))
create_volume_reply_example =
    create_volume_reply nas_client libraries config request [] 3 two_targets

create_volume_exists_iff_example :
    HasCode already_exists (create_volume nas_client libraries config 3 request two_targets).0 ↔ (
      ((n : ℕ) × IsValid libraries request n)
      × Refused nas_client (clean_iscsi_name request.name) two_targets)
create_volume_exists_iff_example =
    create_volume_exists_iff nas_client libraries config 3 request two_targets

pub nas-settles : (lun : ℤ) (w : Nas) → settles nas_client 1 lun w ≡ true
unfolding lun_status_string text_eq lit
nas-settles lun w = refl

create_volume_ends_example :
    ((create_volume nas_client libraries config 3 request two_targets).0 ≢ still_waiting)
    × (create_volume nas_client libraries config 3 request two_targets
        ≡ create_volume nas_client libraries config 1 request two_targets)
create_volume_ends_example =
    create_volume_ends nas_client libraries config 1 3 request two_targets nas-settles (omega arith)

pub nas-Healthy : Healthy nas_client
nas-Healthy = record {
  login = λ w. (tt, refl);
  list = λ w. (_, refl);
  look = λ lun w. (_, refl);
  target = λ name d h c w. (_, refl);
  initiator = λ target w. (tt, refl);
  block_lun = λ name p c t s wc fua ssd tiering w. (_, refl);
  attach = λ lun target w. (tt, refl);
}

modes-distinct : csi_modes.unknown ≢ csi_modes.single_node_writer
modes-distinct = λ e. omega (arith, e)

writer-IsSupported : All (IsSupported csi_modes) (writer ∷ [])
writer-IsSupported = ((refl, λ e. cc), tt)

writer-valid : validate_capabilities csi_modes (list_set text_eq) (writer ∷ []) ≡ []
writer-valid =
    (validate_capabilities_iff csi_modes (list_set text_eq) strings-IsFinSet modes-distinct
        (writer ∷ [])).1
      writer-IsSupported

pub request-IsValid : IsValid libraries request 5368709120
unfolding is_blank lit
request-IsValid = (refl, (writer, [], refl, writer-valid), (refl, (refl, omega arith, omega arith)))

no_target : has_target (clean_iscsi_name request.name) (listed nas_client two_targets) ≡ false
unfolding has_target clean_iscsi_name kept is_upper is_kept text_eq lit
no_target = refl

new_name : HasNamed (clean_iscsi_name request.name) (listed nas_client two_targets) → ⊥
new_name =
    (has_target_iff (clean_iscsi_name request.name) (listed nas_client two_targets)).1.0 no_target

create_volume_succeeds_example :
    Ends
      (served nas_client libraries config request)
      (create_volume nas_client libraries config 3 request two_targets)
create_volume_succeeds_example =
    create_volume_succeeds nas_client nas-Healthy libraries config 1 3 5368709120 request
      two_targets request-IsValid new_name nas-settles (omega arith)

validate_capabilities_iff_example :
    (validate_capabilities csi_modes (list_set text_eq) (writer ∷ []) ≡ [])
    ↔ All (IsSupported csi_modes) (writer ∷ [])
validate_capabilities_iff_example =
    validate_capabilities_iff csi_modes (list_set text_eq) strings-IsFinSet modes-distinct
      (writer ∷ [])
