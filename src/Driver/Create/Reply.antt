-- ===== src/Driver/Create/Reply.antt =====
-- What CreateVolume has asked of the NAS for the volume that it replies with.
use qnap_csi.Base.{ℕ, ◌*◌, ◌≡◌, ◌∙◌, sym, ap, List, ◌∷◌}
use qnap_csi.Base.Int.{pos}
use qnap_csi.Size.Format.{gi_b}
use qnap_csi.Qnap.Client.{Client}
use qnap_csi.Qnap.Ledger.{Event, target_created, initiator_created, lun_created, attached, recorded}
use qnap_csi.Driver.Handler.{Outcome, reply, status, panics, still_waiting, Ending, Ends}
use qnap_csi.Driver.Config.{Config, Libraries}
use qnap_csi.Driver.Create.{CreateVolumeRequest, Volume, Pieces, create_volume}
use qnap_csi.Driver.Create.Replies.{IsVolumeFor, replied, create_volume-replied}
use qnap_csi.Driver.Create.Resources.{volume_left, create_volume_resources}

module _ {W : Type 0} (c : Client W) (libs : Libraries) (d : Config) (req : CreateVolumeRequest)
    (old : List Event) where
  -- A LUN of the volume's bytes, in GiB, joined to a target of the volume's name.
  abbrev pub IsMadeFor : Volume → List Event → Type 0
  IsMadeFor v log =
      (gib : ℕ) × (p : Pieces) × (v.capacity_bytes ≡ pos (gib * gi_b))
      × (log
          ≡ attached p.lun p.target
            ∷ lun_created p.lun v.volume_id (pos gib)
            ∷ initiator_created p.target
            ∷ target_created p.target v.volume_id
            ∷ old)

  abbrev pub made_for : Ending (W × List Event) Volume
  made_for = record {
    at_reply = λ v s. IsVolumeFor (recorded c) libs d req v s × IsMadeFor v s.1;
    at_status = λ _ _ _. Unit;
    at_wait = λ _. Unit;
  }

  both_told :
      (r : Outcome Volume × (W × List Event))
      → Ends (replied (recorded c) libs d req) r
      → Ends (volume_left old) r
      → Ends made_for r
  both_told (reply v, s) (given, caps, named, (n, e, granted, (gib, whole, bytes)), context)
        (p, log) =
      (
        (given, caps, named, (n, e, granted, (gib, whole, bytes)), context),
        (
          gib,
          p,
          e ∙ ap pos (sym bytes),
          log
              ∙ ap
                  (λ size.
                    attached p.lun p.target
                    ∷ lun_created p.lun v.volume_id size
                    ∷ initiator_created p.target
                    ∷ target_created p.target v.volume_id
                    ∷ old)
                  whole,
        ),
      )
  both_told (status code message, s) h left = tt
  both_told (panics, s) h left = h
  both_told (still_waiting, s) h left = tt

  -- A reply of CreateVolume, whatever the NAS and the network answer: the request had a name and
  -- capabilities without violations; the id is the cleaned name; the capacity is the size that the
  -- capacity range stands for; the context has the portal, LUN 0, no further portal and the IQN, not
  -- blank, of the first target of the name in a list that the NAS gave last. CreateVolume has asked
  -- the NAS for a target of the name, its initiator and a LUN of the name with as many GiB as come to
  -- exactly the capacity, and has joined these. It never panics.
  pub create_volume_reply :
      (fuel : ℕ) (w : W) → Ends made_for (create_volume (recorded c) libs d fuel req (w, old))
  create_volume_reply fuel w =
      both_told (create_volume (recorded c) libs d fuel req (w, old))
        (create_volume-replied (recorded c) libs d fuel req (w, old))
        (create_volume_resources c libs d fuel req (w, old))
