-- ===== src/Driver/Create/Complete.antt =====
-- CreateVolume on a NAS that keeps the contract and where no call fails.
use qnap_csi.Base.{
  ℕ, ◌≤◌, ◌≡◌, ap, ◌∙◌, true, false, List, [], ◌∷◌, ◌++◌, Text, is_blank, arith, ok, All,
  if◌then◌else◌,
}
use qnap_csi.Base.Int.{ℤ, pos}
use qnap_csi.Name.{clean_iscsi_name}
use qnap_csi.Qnap.Types.{StorageIscsiTargetInfo}
use qnap_csi.Qnap.Client.{Client, listed, targets_of}
use qnap_csi.Qnap.Contract.{Contract, volumes_of, has_name}
use qnap_csi.Qnap.Contract.Distinct.{has_name-last}
use qnap_csi.Driver.Handler.{
  Ending, Ends, Ends-bind, Ends-call, Ends-succeeds, ◌>>=◌, ◌>>◌, both, both-Ends, errs, Never,
  fail, pure, internal,
}
use qnap_csi.Driver.Config.{Config, Libraries}
use qnap_csi.Driver.Create.{
  CreateVolumeRequest, Plan, Pieces, iqn_of, admit, provision, wait_for_lun, publish, create_volume,
  list_failed, iqn_failed, volume_of,
}
use qnap_csi.Driver.Create.Healthy.{Healthy, not_failed, admit-errs, provision-errs, wait-errs}
use qnap_csi.Driver.Create.Valid.{IsValid, valid-check}
use qnap_csi.Driver.Create.Listed.{HasNamed, has_target_iff}
use qnap_csi.Driver.Create.Refines.{
  adds, on_reply, provision-adds, wait-keeps, has_target-has_name, create_volume-refines,
}
use qnap_csi.Driver.Create.Wait.{settles, create_volume_ends}

iqn_of-given :
    (name : Text) (ts : List StorageIscsiTargetInfo)
    → has_name name (volumes_of ts) ≡ true
    → All (λ t. is_blank t.iqn ≡ false) ts
    → is_blank (iqn_of name ts) ≡ false
unfolding iqn_of
iqn_of-given name [] h given = absurd (cc h)
iqn_of-given name (t ∷ ts) h (g, gs) = ground (arith, iqn_of-given name ts)

with_iqn :
    {W : Type 0} (d : Config) (plan : Plan) (iqn : Text) (w : W)
    → is_blank iqn ≡ false
    → Ends
        (errs Never)
        ((if is_blank iqn then fail internal iqn_failed else pure (volume_of d plan iqn)) w)
with_iqn d plan iqn w given = rw given tt

module _ {W : Type 0} (c : Client W) (K : Contract c) where
  -- Each target that the NAS lists has an IQN.
  abbrev pub GivesIqns : Type 0
  GivesIqns =
      (w : W) (ts : List StorageIscsiTargetInfo)
      → (c.get_storage_iscsi_target_list w).0 ≡ ok ts
      → All (λ t. is_blank t.iqn ≡ false) ts

  module _ (healthy : Healthy c) (iqns : GivesIqns) where
    publish-Never :
        (d : Config) (plan : Plan) (p : Pieces) (w : W)
        → has_name plan.name (K.volumes w) ≡ true
        → Ends (errs Never) (publish c d plan p w)
    unfolding publish
    publish-Never d plan p w there =
        Ends-succeeds (errs Never) (c.attach_storage_iscsi_target_lun p.lun p.target) _ _ _ w
          (healthy.attach p.lun p.target)
          (λ _.
            Ends-call (errs Never) c.get_storage_iscsi_target_list list_failed _ _
              (λ ts told. with_iqn d plan (iqn_of plan.name ts) _ (
                iqn_of-given plan.name ts
                  (ap (has_name plan.name) (K.listed _ ts told ∙ K.attach p.lun p.target w) ∙ there)
                  (iqns _ ts told)))
              (λ e failed. not_failed c.get_storage_iscsi_target_list _ e healthy.list failed))

    -- No error, and these volumes at a reply.
    abbrev sound : {A : Type 0} → (A → W → Type 0) → Ending W A
    sound P = both (on_reply c K P) (errs Never)

    steps-Never :
        (d : Config) (n : ℕ) (plan : Plan) (w : W)
        → has_name plan.name (K.volumes w) ≡ false
        → ((lun : ℤ) (w' : W) → settles c n lun w' ≡ true)
        → Ends (errs Never) (
            (admit c plan
                >> (provision c d plan >>= λ p. wait_for_lun c n p.lun >> publish c d plan p))
              w)
    steps-Never d n plan w new calm =
        Ends-bind (errs Never) (errs Never) (admit c plan) _ w
          (admit-errs c healthy plan w (unlisted plan w new))
          (λ _ w' _.
            Ends-bind
              (sound (λ p u. K.volumes u ≡ K.volumes w' ++ (Pieces.target p, plan.name) ∷ []))
              (errs Never) (provision c d plan) _ w'
              (both-Ends _ (errs Never) (provision c d plan w') (provision-adds c K d plan w')
                (provision-errs c healthy d plan w'))
              (λ p u (added, _).
                Ends-bind (sound (λ _ t. K.volumes t ≡ K.volumes u)) (errs Never)
                  (wait_for_lun c n p.lun) _ u
                  (both-Ends _ (errs Never) (wait_for_lun c n p.lun u) (wait-keeps c K n p.lun u)
                    (wait-errs c healthy n p.lun u (calm p.lun u)))
                  (λ _ t (kept, _). publish-Never d plan p t (
                    ap (has_name plan.name) (kept ∙ added)
                    ∙ has_name-last plan.name p.target (K.volumes w')))
                  (λ _ _ _ h. absurd h.1) (λ _ h. absurd h.1))
              (λ _ _ _ h. absurd h.1) (λ _ h. absurd h.1))
          (λ _ _ _ h. absurd h) (λ _ h. absurd h)
      where
        unlisted :
            (plan : Plan) (w : W)
            → has_name plan.name (K.volumes w) ≡ false
            → (HasNamed plan.name (listed c w) → ⊥)
        unlisted plan w new =
            let (ts, told) = healthy.list (c.login w).1 in
            (has_target_iff plan.name (listed c w)).1.0 (
              has_target-has_name plan.name (listed c w)
              ∙ ap (λ r. has_name plan.name (volumes_of (targets_of r))) told
              ∙ ap (has_name plan.name) (K.listed (c.login w).1 ts told ∙ K.login w)
              ∙ new)

    -- On a NAS that keeps the contract, gives each target an IQN and where no call of CreateVolume
    -- fails, where from any state one of n looks at a LUN in a row finds it no longer being created,
    -- and with fuel for n looks: a valid request whose cleaned name no volume has gets a reply, and
    -- the volumes are those from before with a target of the name of the new id behind them.
    pub create_volume_replies :
        (libs : Libraries) (d : Config) (n fuel size : ℕ) (req : CreateVolumeRequest) (w : W)
        → IsValid libs req size
        → has_name (clean_iscsi_name req.name) (K.volumes w) ≡ false
        → ((lun : ℤ) (w' : W) → settles c n lun w' ≡ true)
        → n ≤ fuel
        → Ends (both (adds c K w) (errs Never)) (create_volume c libs d fuel req w)
    unfolding create_volume
    create_volume_replies libs d n fuel size req w valid new calm le =
        let plan : Plan = record { name = clean_iscsi_name req.name; size = pos size } in
        let (_, same) = create_volume_ends c libs d n fuel req w calm le in
        rw same (
          both-Ends (adds c K w) (errs Never) (create_volume c libs d n req w)
            (create_volume-refines c K libs d n req w)
            (rw (valid-check libs req size valid) (steps-Never d n plan w new calm)))
