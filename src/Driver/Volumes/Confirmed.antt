-- ===== src/Driver/Volumes/Confirmed.antt =====
-- Which volumes ValidateVolumeCapabilities confirms.
use qnap_csi.Base.{
  ◌≡◌, ◌≢◌, ◌↔◌, false, Option, none, some, List, [], ◌∷◌, Text, is_blank, ok, arith,
}
use qnap_csi.Qnap.Types.{StorageIscsiTargetInfo}
use qnap_csi.Qnap.Client.{Client, listed}
use qnap_csi.Driver.Handler.{Outcome, reply, not_found, Ending, Ends}
use qnap_csi.Driver.Capabilities.{VolumeCapability, no_access_type}
use qnap_csi.Driver.Config.{Libraries}
use qnap_csi.Driver.Create.Listed.{HasNamed, has_target_iff}
use qnap_csi.Driver.Create.Taken.{HasCode}
use qnap_csi.Driver.Volumes.{validate_volume_capabilities, check_volume, confirm}

-- A reply.
abbrev pub IsReply : {A : Type 0} → Outcome A → Type 0
IsReply (reply a) = Unit
IsReply _ = ⊥

module _ {W : Type 0} (c : Client W) where
  -- The request is complete, and the NAS answers with the targets `ts`.
  abbrev pub Answered :
      Text → Option (List VolumeCapability) → W → List StorageIscsiTargetInfo → Type 0
  Answered id caps w ts =
      (is_blank id ≡ false)
      × (caps ≢ none)
      × ((c.login w).0 ≡ ok tt)
      × ((c.get_storage_iscsi_target_list (c.login w).1).0 ≡ ok ts)

  -- A reply confirms the one supported access mode.
  abbrev pub confirmed : Libraries → Ending W (List VolumeCapability)
  confirmed libs = record {
    at_reply = λ caps _.
        caps
        ≡ (record {
          access_mode = some libs.modes.single_node_writer;
          access_type = no_access_type;
        })
          ∷ [];
    at_status = λ _ _ _. Unit;
    at_wait = λ _. ⊥;
  }

  -- ValidateVolumeCapabilities replies exactly when the id is not blank, the request has
  -- capabilities, the login succeeds and the NAS lists a target that has the id as its name; its
  -- error is NotFound exactly when all this holds but no listed target has that name. The reply
  -- confirms the access mode SINGLE_NODE_WRITER and no other, whichever the request has. It
  -- does not panic.
  pub validate_volume_capabilities_iff :
      (libs : Libraries) (id : Text) (caps : Option (List VolumeCapability)) (w : W)
      → (IsReply (validate_volume_capabilities c libs id caps w).0
          ↔ ((ts : List StorageIscsiTargetInfo) × Answered id caps w ts × HasNamed id ts))
        × (HasCode not_found (validate_volume_capabilities c libs id caps w).0
            ↔ ((ts : List StorageIscsiTargetInfo) × Answered id caps w ts × (HasNamed id ts → ⊥)))
        × Ends (confirmed libs) (validate_volume_capabilities c libs id caps w)
  unfolding validate_volume_capabilities check_volume confirm
  validate_volume_capabilities_iff libs id none w = (ground arith, ground arith, ground arith)
  validate_volume_capabilities_iff libs id (some cs) w = (
    (
      λ h. (
        listed c w,
        (ground arith, (λ e. cc), ground arith, ground arith),
        (has_target_iff id (listed c w)).0.0 (ground arith),
      ),
      λ (ts, (given, _, logged_in, answered), there).
          let found = (has_target_iff id ts).0.1 there in ground arith,
    ),
    (
      λ h. (
        listed c w,
        (ground arith, (λ e. cc), ground arith, ground arith),
        (has_target_iff id (listed c w)).1.0 (ground arith),
      ),
      λ (ts, (given, _, logged_in, answered), absent).
          let missing = (has_target_iff id ts).1.1 absent in ground arith,
    ),
    ground arith,
  )
