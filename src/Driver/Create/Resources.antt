-- ===== src/Driver/Create/Resources.antt =====
-- What CreateVolume leaves behind on the NAS, for every NAS and network.
use qnap_csi.Base.{
  ℕ, zero, suc, ◌≡◌, refl, ◌∙◌, ap, ◌⊎◌, inl, inr, Bool, true, false, lit, List, ◌∷◌, arith, Text,
}
use qnap_csi.Base.Int.{ℤ, eq_ℤ_iff}
use qnap_csi.Size.Format.{gi_b}
use qnap_csi.Qnap.Client.{Client}
use qnap_csi.Qnap.Ledger.{
  Event, target_created, target_deleted, initiator_created, lun_created, lun_deleted, attached,
  recorded, open_targets, open_luns,
}
use qnap_csi.Driver.Handler.{
  Code, internal, Outcome, reply, status, panics, still_waiting, Ending, Ends, Ends-bind, ◌>>=◌,
  ◌>>◌, continue,
}
use qnap_csi.Driver.Config.{Config, Libraries}
use qnap_csi.Driver.Create.{
  CreateVolumeRequest, Volume, Plan, Pieces, quotient, check_request, check_capabilities,
  check_violations, check_size, admit, provision, wait_for_lun, publish, create_volume, volume_of,
  login_failed, readiness_failed, list_failed, iqn_failed, sized,
}

-- An error of the NAS, whose code is Internal, or one of the request.
abbrev pub is_internal : Code → Bool
is_internal internal = true
is_internal _ = false

-- The errors of the NAS before a target is made.
abbrev pub IsEarly : Text → Type 0
IsEarly message =
    (message ≡ login_failed)
    ⊎ ((message ≡ list_failed) ⊎ (message ≡ lit "Failed to create ISCSI target"))

-- Those for which what was made is deleted.
abbrev pub IsUndone : Text → Type 0
IsUndone message =
    (message ≡ lit "Failed to create ISCSI initator")
    ⊎ ((message ≡ lit "Failed to create ISCSI Block based LUN")
        ⊎ (message ≡ lit "Failed to associate LUN with ISCSI target"))

-- Those for which nothing is undone.
abbrev pub IsLate : Text → Type 0
IsLate message = (message ≡ readiness_failed) ⊎ ((message ≡ list_failed) ⊎ (message ≡ iqn_failed))

-- No target and no LUN more than before, and none less.
abbrev pub Same : List Event → List Event → Type 0
Same old new = (open_targets new ≡ open_targets old) × (open_luns new ≡ open_luns old)

-- One target and one LUN more than before.
abbrev pub Holds : List Event → List Event → Pieces → Type 0
Holds old new p =
    (open_targets new ≡ p.target ∷ open_targets old) × (open_luns new ≡ p.lun ∷ open_luns old)

abbrev pub provisioned : Text → ℤ → Pieces → List Event → List Event
provisioned name size p old =
    lun_created p.lun name (quotient size gi_b)
    ∷ initiator_created p.target
    ∷ target_created p.target name
    ∷ old

-- What CreateVolume has changed at its end, by how it ends.
abbrev pub volume_left : {W : Type 0} → List Event → Ending (W × List Event) Volume
volume_left old = record {
  at_reply = λ v s.
      (p : Pieces) × (s.1
        ≡ attached p.lun p.target ∷ provisioned v.volume_id v.capacity_bytes p old);
  at_status = λ code message s.
      (((is_internal code ≡ false) ⊎ IsEarly message) × (s.1 ≡ old))
      ⊎ ((IsUndone message × Same old s.1) ⊎ (IsLate message × ((p : Pieces) × Holds old s.1 p)));
  at_wait = λ s. (p : Pieces) × Holds old s.1 p;
}

Holds-provisioned :
    (name : Text) (size : ℤ) (p : Pieces) (old : List Event)
    → Holds old (provisioned name size p old) p
unfolding open_targets open_luns
Holds-provisioned name size p old = (refl, refl)

Holds-attached :
    (name : Text) (size : ℤ) (p : Pieces) (old : List Event)
    → Holds old (attached p.lun p.target ∷ provisioned name size p old) p
unfolding open_targets open_luns
Holds-attached name size p old = (refl, refl)

same-undone :
    (name : Text) (size : ℤ) (p : Pieces) (old : List Event)
    → Same old (lun_deleted p.lun ∷ target_deleted p.target ∷ provisioned name size p old)
unfolding open_targets open_luns
same-undone name size p old = ground (arith, eq_ℤ_iff p.lun p.lun, eq_ℤ_iff p.target p.target)

-- A reply or an error status that is not Internal.
abbrev IsDecided : Outcome Plan → Type 0
IsDecided (reply plan) = Unit
IsDecided (status code message) = is_internal code ≡ false
IsDecided panics = ⊥
IsDecided still_waiting = ⊥

check_request-IsDecided :
    (libs : Libraries) (req : CreateVolumeRequest) → IsDecided (check_request libs req)
unfolding check_request check_capabilities check_violations check_size
check_request-IsDecided libs req = ground arith

module _ {W : Type 0} (c : Client W) where
  abbrev Log : Type 0
  Log = W × List Event

  abbrev admitted : List Event → Ending Log (Unit {0})
  admitted old = record {
    at_reply = λ _ s. s.1 ≡ old;
    at_status = λ code message s. ((is_internal code ≡ false) ⊎ IsEarly message) × (s.1 ≡ old);
    at_wait = λ _. ⊥;
  }

  admit-Ends : (plan : Plan) (s : Log) → Ends (admitted s.1) (admit (recorded c) plan s)
  unfolding admit
  admit-Ends plan s = ground arith

  abbrev made : Plan → List Event → Ending Log Pieces
  made plan old = record {
    at_reply = λ p s. s.1 ≡ provisioned plan.name plan.size p old;
    at_status = λ _ message s. (IsEarly message × (s.1 ≡ old)) ⊎ (IsUndone message × Same old s.1);
    at_wait = λ _. ⊥;
  }

  provision-Ends :
      (d : Config) (plan : Plan) (s : Log) → Ends (made plan s.1) (provision (recorded c) d plan s)
  unfolding provision open_targets open_luns
  provision-Ends d plan s = ground arith

  abbrev waited : List Event → Ending Log (Unit {0})
  waited old = record {
    at_reply = λ _ s. s.1 ≡ old;
    at_status = λ _ message s. IsLate message × (s.1 ≡ old);
    at_wait = λ s. s.1 ≡ old;
  }

  wait-Ends :
      (fuel : ℕ) (lun : ℤ) (s : Log) → Ends (waited s.1) (wait_for_lun (recorded c) fuel lun s)
  unfolding wait_for_lun
  wait-Ends zero lun s = refl
  wait-Ends (suc fuel) lun s =
      ground (arith, wait-Ends fuel lun ((c.get_storage_iscsi_lun lun s.0).1, s.1))

  abbrev published : Plan → Pieces → List Event → Ending Log Volume
  published plan p old = record {
    at_reply = λ v s.
        (v.volume_id ≡ plan.name)
        × (v.capacity_bytes ≡ plan.size)
        × (s.1 ≡ attached p.lun p.target ∷ old);
    at_status = λ _ message s.
        (IsUndone message × (s.1 ≡ lun_deleted p.lun ∷ target_deleted p.target ∷ old))
        ⊎ (IsLate message × (s.1 ≡ attached p.lun p.target ∷ old));
    at_wait = λ _. ⊥;
  }

  publish-Ends :
      (d : Config) (plan : Plan) (p : Pieces) (s : Log)
      → Ends (published plan p s.1) (publish (recorded c) d plan p s)
  unfolding publish volume_of
  publish-Ends d plan p s = ground arith

  publish-left :
      (d : Config) (plan : Plan) (p : Pieces) (old : List Event) (s : Log)
      → s.1 ≡ provisioned plan.name plan.size p old
      → Ends (published plan p s.1) (publish (recorded c) d plan p s)
      → Ends (volume_left old) (publish (recorded c) d plan p s)
  publish-left d plan p old s e = go (publish (recorded c) d plan p s)
    where
      go : (r : Outcome Volume × Log) → Ends (published plan p s.1) r → Ends (volume_left old) r
      go (reply v, t) (named, sized, log) = (p, rw (named, sized, log, e))
      go (status code message, t) (inl (undone, log)) =
          inr (inl (undone, rw (log, e) (same-undone plan.name plan.size p old)))
      go (status code message, t) (inr (late, log)) =
          inr (inr (late, (p, rw (log, e) (Holds-attached plan.name plan.size p old))))
      go (panics, t) h = h
      go (still_waiting, t) h = absurd h

  finish-left :
      (d : Config) (fuel : ℕ) (plan : Plan) (p : Pieces) (old : List Event) (s : Log)
      → s.1 ≡ provisioned plan.name plan.size p old
      → Ends
          (volume_left old)
          ((wait_for_lun (recorded c) fuel p.lun >> publish (recorded c) d plan p) s)
  finish-left d fuel plan p old s e =
      let held : Holds old s.1 p = rw e (Holds-provisioned plan.name plan.size p old) in
      Ends-bind (waited s.1) (volume_left old) (wait_for_lun (recorded c) fuel p.lun) _ s
        (wait-Ends fuel p.lun s)
        (λ _ t same. publish-left d plan p old t (same ∙ e) (publish-Ends d plan p t))
        (λ _ message t (late, same). inr (inr (late, (p, rw same held))))
        (λ t same. (p, rw same held))

  provision-left :
      (d : Config) (fuel : ℕ) (plan : Plan) (old : List Event) (s : Log)
      → s.1 ≡ old
      → Ends (volume_left old) (
          (provision (recorded c) d plan >>= λ p.
          wait_for_lun (recorded c) fuel p.lun >> publish (recorded c) d plan p)
            s)
  provision-left d fuel plan old s e =
      Ends-bind (made plan s.1) (volume_left old) (provision (recorded c) d plan) _ s
        (provision-Ends d plan s)
        (λ p t log.
          finish-left d fuel plan p old t (log ∙ ap (provisioned plan.name plan.size p) e))
        (λ code message t h. left code message t h) (λ _ h. absurd h)
    where
      left :
          (code : Code) (message : Text) (t : Log)
          → (made plan s.1).at_status code message t
          → (volume_left old).at_status code message t
      left code message t (inl (early, same)) = inl (inr early, same ∙ e)
      left code message t (inr (undone, same)) = inr (inl (undone, rw (← e) same))

  admit-left :
      (d : Config) (fuel : ℕ) (plan : Plan) (s : Log)
      → Ends (volume_left s.1) (
          (admit (recorded c) plan
              >> (provision (recorded c) d plan >>= λ p.
                  wait_for_lun (recorded c) fuel p.lun >> publish (recorded c) d plan p))
            s)
  admit-left d fuel plan s =
      Ends-bind (admitted s.1) (volume_left s.1) (admit (recorded c) plan) _ s (admit-Ends plan s)
        (λ _ t e. provision-left d fuel plan s.1 t e) (λ _ _ t h. inl h) (λ _ h. absurd h)

  -- Whatever the NAS and the network answer: with a reply, CreateVolume has made just one target of
  -- the volume's name, its initiator and one LUN of the volume's name and size in whole GiB, and
  -- has attached the LUN to the target, in this order. With an error that is not Internal, or of the
  -- login, the list or the creation of the target, it has asked for no change; with one of the
  -- creation of the initiator or the LUN or of the attachment, each target and LUN that it made has
  -- been asked to be deleted; and with one of the readiness of the LUN, of the second list or of
  -- the IQN one target and one LUN stay behind, as they do while it still waits for the LUN. The two
  -- lists have the same error. It does not panic.
  pub create_volume_resources :
      (libs : Libraries) (d : Config) (fuel : ℕ) (req : CreateVolumeRequest) (s : W × List Event)
      → Ends (volume_left s.1) (create_volume (recorded c) libs d fuel req s)
  unfolding create_volume
  create_volume_resources libs d fuel req s =
      go (check_request libs req) (check_request-IsDecided libs req)
    where
      go :
          (r : Outcome Plan)
          → IsDecided r
          → Ends (volume_left s.1) (
              continue r
                (λ plan.
                  admit (recorded c) plan
                  >> (provision (recorded c) d plan >>= λ p.
                      wait_for_lun (recorded c) fuel p.lun >> publish (recorded c) d plan p))
                s)
      go (reply plan) h = admit-left d fuel plan s
      go (status code message) h = inl (inl h, refl)
      go panics h = absurd h
      go still_waiting h = absurd h
