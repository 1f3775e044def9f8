-- ===== src/Driver/Create/Refines.antt =====
-- CreateVolume as the addition of a name to the volumes of the NAS.
use qnap_csi.Base.{
  ℕ, zero, suc, ◌≡◌, refl, sym, ap, ◌∙◌, Bool, true, false, Bool-cases, inl, inr, List, [], ◌∷◌,
  ◌++◌, Text, lit, is_blank, arith, if◌then◌else◌,
}
use qnap_csi.Base.Int.{ℤ, pos}
use qnap_csi.Size.Format.{gi_b}
use qnap_csi.Qnap.Types.{StorageIscsiTargetInfo}
use qnap_csi.Qnap.Client.{Client}
use qnap_csi.Qnap.Contract.{Contract, Volumes, volumes_of, has_name}
use qnap_csi.Driver.Handler.{
  Outcome, reply, status, panics, still_waiting, Ending, Ends, Ends-bind, Ends-call, Ends-call_or,
  ◌>>=◌, ◌>>◌, continue, pure, fail, already_exists,
}
use qnap_csi.Driver.Config.{Config, Libraries}
use qnap_csi.Driver.Create.{
  CreateVolumeRequest, Volume, Plan, Pieces, quotient, check_request, has_target, iqn_of, volume_of,
  admit, provision, wait_for_lun, publish, create_volume, login_failed, list_failed,
}
use qnap_csi.Driver.Create.Replies.{check_request-Passes, Passes}

pub has_target-has_name :
    (name : Text) (ts : List StorageIscsiTargetInfo)
    → has_target name ts ≡ has_name name (volumes_of ts)
unfolding has_target
has_target-has_name name [] = refl
has_target-has_name name (t ∷ ts) = ground (arith, has_target-has_name name ts)

module _ {W : Type 0} (c : Client W) (K : Contract c) where
  -- What holds at a reply; a wait is allowed.
  abbrev pub on_reply : {A : Type 0} → (A → W → Type 0) → Ending W A
  on_reply P = record { at_reply = P; at_status = λ _ _ _. Unit; at_wait = λ _. Unit }

  abbrev pub keeps : {A : Type 0} → Volumes → Ending W A
  keeps vs = on_reply (λ _ w. K.volumes w ≡ vs)

  pub admit-keeps :
      (plan : Plan) (w : W)
      → Ends
          (on_reply
            (λ _ w'. (K.volumes w' ≡ K.volumes w) × (has_name plan.name (K.volumes w) ≡ false)))
          (admit c plan w)
  unfolding admit
  admit-keeps plan w =
      Ends-call E c.login login_failed _ w
        (λ _ _.
          Ends-call E c.get_storage_iscsi_target_list list_failed _ (c.login w).1
            (λ ts told. checked (has_target plan.name ts) (
              sym (ap (has_name plan.name) (K.listed (c.login w).1 ts told ∙ K.login w))
              ∙ sym (has_target-has_name plan.name ts)))
            (λ _ _. tt))
        (λ _ _. tt)
    where
      E : Ending W (Unit {0})
      E =
          on_reply
            (λ _ w'. (K.volumes w' ≡ K.volumes w) × (has_name plan.name (K.volumes w) ≡ false))

      checked :
          (b : Bool)
          → has_name plan.name (K.volumes w) ≡ b
          → Ends E (
              (if b then fail already_exists (lit "Volume already exists") else pure tt)
                (c.get_storage_iscsi_target_list (c.login w).1).1)
      checked true e = tt
      checked false e = (K.list (c.login w).1 ∙ K.login w, e)

  pub provision-adds :
      (d : Config) (plan : Plan) (w : W)
      → Ends
          (on_reply (λ p w'. K.volumes w' ≡ K.volumes w ++ (Pieces.target p, plan.name) ∷ []))
          (provision c d plan w)
  unfolding provision
  provision-adds d plan w =
      Ends-call E (c.create_storage_iscsi_target plan.name false false true) _ _ w
        (λ i made.
          Ends-call_or E (c.create_storage_iscsi_initiator i false [] [] false [] []) _ _ _ _
            (λ _ _.
              Ends-call_or E
                (c.create_storage_iscsi_block_lun plan.name d.storage_pool_id
                  (quotient plan.size gi_b) false (pos 512) false false false false)
                _ _ _ _
                (λ _ _.
                  K.create_lun plan.name d.storage_pool_id (quotient plan.size gi_b) _
                  ∙ K.create_initiator i _
                  ∙ K.create_target plan.name false false true w i made)
                (λ _ _. tt))
            (λ _ _. tt))
        (λ _ _. tt)
    where
      E : Ending W Pieces
      E = on_reply (λ p w'. K.volumes w' ≡ K.volumes w ++ (p.target, plan.name) ∷ [])

  pub wait-keeps :
      (fuel : ℕ) (lun : ℤ) (w : W) → Ends (keeps (K.volumes w)) (wait_for_lun c fuel lun w)
  unfolding wait_for_lun
  wait-keeps zero lun w = tt
  wait-keeps (suc fuel) lun w =
      ground (arith, wait-keeps fuel lun (c.get_storage_iscsi_lun lun w).1, K.look lun w)

  publish-keeps :
      (d : Config) (plan : Plan) (p : Pieces) (w : W)
      → Ends
          (on_reply (λ v w'. (Volume.volume_id v ≡ plan.name) × (K.volumes w' ≡ K.volumes w)))
          (publish c d plan p w)
  unfolding publish volume_of
  publish-keeps d plan p w =
      Ends-call_or E (c.attach_storage_iscsi_target_lun p.lun p.target) _ _ _ w
        (λ _ _.
          Ends-call E c.get_storage_iscsi_target_list list_failed _ _
            (λ ts _. elim (Bool-cases (is_blank (iqn_of plan.name ts))) [
              | inl blank ↦ rw blank tt
              | inr found ↦ rw found (refl, K.list _ ∙ K.attach p.lun p.target w)
            ])
            (λ _ _. tt))
        (λ _ _. tt)
    where
      E : Ending W Volume
      E = on_reply (λ v w'. (v.volume_id ≡ plan.name) × (K.volumes w' ≡ K.volumes w))

  -- The name was new, and is now the last.
  abbrev pub adds : W → Ending W Volume
  adds w = on_reply (λ v w'.
      (has_name v.volume_id (K.volumes w) ≡ false)
      × ((i : ℤ) × (K.volumes w' ≡ K.volumes w ++ (i, v.volume_id) ∷ [])))

  steps-add :
      (d : Config) (fuel : ℕ) (plan : Plan) (w : W)
      → Ends (adds w) (
          (admit c plan
              >> (provision c d plan >>= λ p. wait_for_lun c fuel p.lun >> publish c d plan p))
            w)
  steps-add d fuel plan w =
      Ends-bind
        (on_reply
          (λ _ w'. (K.volumes w' ≡ K.volumes w) × (has_name plan.name (K.volumes w) ≡ false)))
        (adds w) (admit c plan) _ w (admit-keeps plan w)
        (λ _ w' (same, new).
          Ends-bind
            (on_reply (λ p u. K.volumes u ≡ K.volumes w' ++ (Pieces.target p, plan.name) ∷ []))
            (adds w) (provision c d plan) _ w' (provision-adds d plan w')
            (λ p u added.
              Ends-bind (keeps (K.volumes u)) (adds w) (wait_for_lun c fuel p.lun) _ u
                (wait-keeps fuel p.lun u)
                (λ _ t kept.
                  done p (publish c d plan p t) new
                    (kept ∙ added ∙ ap (λ vs. vs ++ (p.target, plan.name) ∷ []) same)
                    (publish-keeps d plan p t))
                (λ _ _ _ _. tt) (λ _ _. tt))
            (λ _ _ _ _. tt) (λ _ _. tt))
        (λ _ _ _ _. tt) (λ _ _. tt)
    where
      done :
          (p : Pieces) (r : Outcome Volume × W) {vs : Volumes}
          → has_name plan.name (K.volumes w) ≡ false
          → vs ≡ K.volumes w ++ (p.target, plan.name) ∷ []
          → Ends (on_reply (λ v w'. (v.volume_id ≡ plan.name) × (K.volumes w' ≡ vs))) r
          → Ends (adds w) r
      done p (reply v, u) new vs (named, kept) = (rw named new, (p.target, rw named (kept ∙ vs)))
      done p (status code message, u) new vs h = tt
      done p (panics, u) new vs h = h
      done p (still_waiting, u) new vs h = tt

  -- For a NAS that keeps the contract: at a reply of CreateVolume no volume had the id of the new
  -- one as its name before, and the volumes are those from before with one target of that name
  -- behind them. It does not panic.
  pub create_volume-refines :
      (libs : Libraries) (d : Config) (fuel : ℕ) (req : CreateVolumeRequest) (w : W)
      → Ends (adds w) (create_volume c libs d fuel req w)
  unfolding create_volume
  create_volume-refines libs d fuel req w =
      go (check_request libs req) (check_request-Passes libs req)
    where
      go :
          (r : Outcome Plan)
          → Passes libs req r
          → Ends (adds w) (
              continue r
                (λ plan.
                  admit c plan
                  >> (provision c d plan >>= λ p. wait_for_lun c fuel p.lun >> publish c d plan p))
                w)
      go (reply plan) passes = steps-add d fuel plan w
      go (status code message) passes = tt
      go panics passes = absurd passes
      go still_waiting passes = absurd passes
