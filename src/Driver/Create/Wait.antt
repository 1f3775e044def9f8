-- ===== src/Driver/Create/Wait.antt =====
-- The loop in CreateVolume that waits for the LUN ends, on a NAS that gets the LUN ready.
use mathlib.Core.Path.{fun_ext}
use qnap_csi.Base.{
  ℕ, zero, suc, ◌≤◌, ◌≡◌, ◌≢◌, ap, Bool, true, false, not, ◌||◌, arith, lit, text_eq, Result, ok,
  err,
}
use qnap_csi.Base.Int.{ℤ}
use qnap_csi.Qnap.Types.{StorageIscsiLun, lun_status_string}
use qnap_csi.Qnap.Client.{Client}
use qnap_csi.Driver.Handler.{
  Outcome, reply, status, panics, still_waiting, Ending, Ends, Ends-bind, Handler, ◌>>=◌, ◌>>◌,
  continue,
}
use qnap_csi.Driver.Config.{Config, Libraries}
use qnap_csi.Driver.Create.{
  CreateVolumeRequest, Volume, Plan, Pieces, check_request, admit, provision, wait_for_lun, publish,
  create_volume,
}
use qnap_csi.Driver.Create.Replies.{check_request-Passes, Passes}

-- The answer that makes the loop look again.
abbrev pub still_creating : Result StorageIscsiLun → Bool
still_creating (ok info) = text_eq (lun_status_string info.status) (lit "creating")
still_creating (err e) = false

module _ {W : Type 0} (c : Client W) where
  -- One of the next `n` looks at the LUN gives another answer than that it is being created.
  abbrev pub settles : ℕ → ℤ → W → Bool
  settles zero lun w = false
  settles (suc n) lun w =
      let later = settles n lun (c.get_storage_iscsi_lun lun w).1 in
      not (still_creating (c.get_storage_iscsi_lun lun w).0) || later

  -- Any fuel from the number of looks on gives the same.
  wait_enough :
      (n fuel : ℕ) (lun : ℤ) (w : W)
      → settles n lun w ≡ true
      → n ≤ fuel
      → (wait_for_lun c fuel lun w ≡ wait_for_lun c n lun w)
        × ((wait_for_lun c n lun w).0 ≢ still_waiting)
  unfolding wait_for_lun
  wait_enough zero fuel lun w h le = cc
  wait_enough (suc n) zero lun w h le = absurd (omega arith)
  wait_enough (suc n) (suc fuel) lun w h le =
      ground (arith, wait_enough n fuel lun (c.get_storage_iscsi_lun lun w).1)

  -- CreateVolume behind its checks, over the waiting loop.
  steps : Config → (ℤ → Handler W (Unit {0})) → Plan → Handler W Volume
  steps d wait plan = admit c plan >> (provision c d plan >>= λ p. wait p.lun >> publish c d plan p)

  -- No panic, and no wait without end.
  abbrev ended : {A : Type 0} → Ending W A
  ended = record { at_reply = λ _ _. Unit; at_status = λ _ _ _. Unit; at_wait = λ _. ⊥ }

  ended-ne : {A : Type 0} (r : Outcome A × W) → Ends ended r → r.0 ≢ still_waiting
  ended-ne (reply a, w) h = λ e. cc
  ended-ne (status code message, w) h = λ e. cc
  ended-ne (panics, w) h = λ e. cc
  ended-ne (still_waiting, w) h = absurd h

  admit-ended : (plan : Plan) (w : W) → Ends ended (admit c plan w)
  unfolding admit
  admit-ended plan w = ground arith

  provision-ended : (d : Config) (plan : Plan) (w : W) → Ends ended (provision c d plan w)
  unfolding provision
  provision-ended d plan w = ground arith

  publish-ended :
      (d : Config) (plan : Plan) (p : Pieces) (w : W) → Ends ended (publish c d plan p w)
  unfolding publish
  publish-ended d plan p w = ground arith

  wait-ended :
      (n : ℕ) (lun : ℤ) (w : W) → settles n lun w ≡ true → Ends ended (wait_for_lun c n lun w)
  unfolding wait_for_lun
  wait-ended zero lun w h = cc
  wait-ended (suc n) lun w h = ground (arith, wait-ended n lun (c.get_storage_iscsi_lun lun w).1)

  steps-ended :
      (d : Config) (n : ℕ) (plan : Plan) (w : W)
      → ((lun : ℤ) (w' : W) → settles n lun w' ≡ true)
      → Ends ended (steps d (wait_for_lun c n) plan w)
  unfolding steps
  steps-ended d n plan w calm =
      Ends-bind ended ended (admit c plan) _ w (admit-ended plan w)
        (λ _ w' _.
          Ends-bind ended ended (provision c d plan) _ w' (provision-ended d plan w')
            (λ p w'' _.
              Ends-bind ended ended (wait_for_lun c n p.lun) _ w''
                (wait-ended n p.lun w'' (calm p.lun w'')) (λ _ u _. publish-ended d plan p u)
                (λ _ _ _ h. h) (λ _ h. h))
            (λ _ _ _ h. h) (λ _ h. h))
        (λ _ _ _ h. h) (λ _ h. h)

  create_volume-ended :
      (libs : Libraries) (d : Config) (n : ℕ) (req : CreateVolumeRequest) (w : W)
      → ((lun : ℤ) (w' : W) → settles n lun w' ≡ true)
      → Ends ended (create_volume c libs d n req w)
  unfolding create_volume steps
  create_volume-ended libs d n req w calm =
      go (check_request libs req) (check_request-Passes libs req)
    where
      go :
          (r : Outcome Plan)
          → Passes libs req r
          → Ends ended (continue r (steps d (wait_for_lun c n)) w)
      go (reply plan) passes = steps-ended d n plan w calm
      go (status code message) passes = tt
      go panics passes = absurd passes
      go still_waiting passes = absurd passes

  -- On a NAS where, from any state, one of n looks at a LUN in a row finds it no longer being
  -- created, CreateVolume ends with any fuel from n on, and the amount of fuel makes no
  -- difference to how it ends.
  pub create_volume_ends :
      (libs : Libraries) (d : Config) (n fuel : ℕ) (req : CreateVolumeRequest) (w : W)
      → ((lun : ℤ) (w' : W) → settles n lun w' ≡ true)
      → n ≤ fuel
      → ((create_volume c libs d fuel req w).0 ≢ still_waiting)
        × (create_volume c libs d fuel req w ≡ create_volume c libs d n req w)
  unfolding create_volume steps
  create_volume_ends libs d n fuel req w calm le =
      let same_wait : wait_for_lun c fuel ≡ wait_for_lun c n =
        fun_ext (λ lun. fun_ext (λ w'. (wait_enough n fuel lun w' (calm lun w') le).0)) in
      let same : create_volume c libs d fuel req w ≡ create_volume c libs d n req w =
        ap (λ (wait : ℤ → Handler W (Unit {0})). continue (check_request libs req) (steps d wait) w)
          same_wait in
      (rw same (ended-ne _ (create_volume-ended libs d n req w calm)), same)
