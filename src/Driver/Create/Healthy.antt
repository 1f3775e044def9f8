-- ===== src/Driver/Create/Healthy.antt =====
-- CreateVolume on a NAS where no call fails.
use qnap_csi.Base.{
  ℕ, zero, suc, ◌≤◌, ◌≡◌, refl, sym, ap, ◌∙◌, Bool, true, false, Bool-cases, inl, inr, arith, Text,
  [], is_blank, err, if◌then◌else◌,
}
use qnap_csi.Base.Int.{ℤ, pos}
use qnap_csi.Size.Format.{gi_b}
use qnap_csi.Qnap.Client.{Client, Method, listed, targets_of}
use qnap_csi.Driver.Handler.{
  internal, fail, Ending, Ends, Ends-bind, ◌>>=◌, ◌>>◌, pure, Ends-call, Ends-succeeds, Succeeds,
  both, both-Ends, errs, Never,
}
use qnap_csi.Driver.Config.{Config, Libraries}
use qnap_csi.Name.{clean_iscsi_name}
use qnap_csi.Driver.Create.{
  CreateVolumeRequest, Volume, Plan, Pieces, quotient, has_target, iqn_of, volume_of, admit,
  provision, wait_for_lun, publish, create_volume, iqn_failed, list_failed,
}
use qnap_csi.Driver.Create.Replies.{LastListed, listing, replied, create_volume-replied}
use qnap_csi.Driver.Create.Listed.{HasNamed, has_target_iff}
use qnap_csi.Driver.Create.Valid.{IsValid, valid-check}
use qnap_csi.Driver.Create.Wait.{settles, create_volume_ends}

pub not_failed :
    {W A : Type 0} (m : Method W A) (w : W) (e : Text) → Succeeds m → (m w).0 ≡ err e → ⊥
not_failed m w e sound failed = let (a, found) = sound w in absurd (cc (found, failed))

module _ {W : Type 0} (c : Client W) where
  -- So do the calls of CreateVolume.
  pub record Healthy : Type 0 where
    pub login : Succeeds c.login
    pub list : Succeeds c.get_storage_iscsi_target_list
    pub look : (lun : ℤ) → Succeeds (c.get_storage_iscsi_lun lun)
    pub target :
        (name : Text) (data_digest header_digest cluster : Bool)
        → Succeeds (c.create_storage_iscsi_target name data_digest header_digest cluster)
    pub initiator :
        (target : ℤ) → Succeeds (c.create_storage_iscsi_initiator target false [] [] false [] [])
    pub block_lun :
        (name : Text) (pool capacity : ℤ) (thin : Bool) (sector : ℤ) (wc fua ssd tiering : Bool)
        → Succeeds
            (c.create_storage_iscsi_block_lun name pool capacity thin sector wc fua ssd tiering)
    pub attach : (lun target : ℤ) → Succeeds (c.attach_storage_iscsi_target_lun lun target)

  -- The only error is that the NAS lists the new target with a blank IQN, or not at all.
  abbrev pub no_iqn : {A : Type 0} → Text → Ending W A
  no_iqn name = record {
    at_reply = λ _ _. Unit;
    at_status = λ code message w.
        (code ≡ internal)
        × (message ≡ iqn_failed)
        × ((iqn : Text) × (is_blank iqn ≡ true) × LastListed c name iqn w);
    at_wait = λ _. ⊥;
  }

  abbrev pub served : Libraries → Config → CreateVolumeRequest → Ending W Volume
  served libs d req = both (replied c libs d req) (no_iqn (clean_iscsi_name req.name))

  looked_up :
      (d : Config) (plan : Plan) (iqn : Text) (w : W)
      → LastListed c plan.name iqn w
      → Ends
          (no_iqn plan.name)
          ((if is_blank iqn then fail internal iqn_failed else pure (volume_of d plan iqn)) w)
  looked_up d plan iqn w listed_last = elim (Bool-cases (is_blank iqn)) [
    | inl blank ↦ rw blank (refl, refl, (iqn, blank, listed_last))
    | inr given ↦ rw given tt
  ]

  module _ (healthy : Healthy) where
    pub provision-errs :
        (d : Config) (plan : Plan) (w : W) → Ends (errs Never) (provision c d plan w)
    unfolding provision
    provision-errs d plan w =
        Ends-succeeds (errs Never) (c.create_storage_iscsi_target plan.name false false true) _ _ _
          w (healthy.target plan.name false false true)
          (λ target.
            Ends-succeeds (errs Never)
              (c.create_storage_iscsi_initiator target false [] [] false [] []) _ _ _ _
              (healthy.initiator target)
              (λ _.
                Ends-succeeds {B = Pieces} (errs Never)
                  (c.create_storage_iscsi_block_lun plan.name d.storage_pool_id
                    (quotient plan.size gi_b) false (pos 512) false false false false)
                  _ _ (λ block. pure (record { target = target; lun = block.result })) _
                  (healthy.block_lun plan.name d.storage_pool_id (quotient plan.size gi_b) false
                    (pos 512) false false false false)
                  (λ _. tt)))

    pub wait-errs :
        (n : ℕ) (lun : ℤ) (w : W)
        → settles c n lun w ≡ true
        → Ends (errs Never) (wait_for_lun c n lun w)
    unfolding wait_for_lun
    wait-errs zero lun w h = cc
    wait-errs (suc n) lun w h =
        ground (arith, healthy.look lun w, wait-errs n lun (c.get_storage_iscsi_lun lun w).1)

    pub admit-errs :
        (plan : Plan) (w : W)
        → (HasNamed plan.name (listed c w) → ⊥)
        → Ends (errs Never) (admit c plan w)
    unfolding admit
    admit-errs plan w unlisted =
        let new = (has_target_iff plan.name (listed c w)).1.1 unlisted in
        Ends-succeeds (errs Never) c.login _ _ _ w healthy.login (λ _.
          Ends-call (errs Never) c.get_storage_iscsi_target_list list_failed _ (c.login w).1
            (λ ts e. rw (sym (ap (λ r. has_target plan.name (targets_of r)) e) ∙ new) tt)
            (λ e failed. let (a, found) = healthy.list (c.login w).1 in absurd (cc)))

    publish-errs :
        (d : Config) (plan : Plan) (p : Pieces) (w : W)
        → Ends (no_iqn plan.name) (publish c d plan p w)
    unfolding publish
    publish-errs d plan p w =
        Ends-succeeds (no_iqn plan.name) (c.attach_storage_iscsi_target_lun p.lun p.target) _ _ _ w
          (healthy.attach p.lun p.target)
          (λ _.
            Ends-call (no_iqn plan.name) c.get_storage_iscsi_target_list list_failed _ _
              (λ ts told. looked_up d plan (iqn_of plan.name ts) _ (listing c plan.name _ ts told))
              (λ e failed.
                absurd (not_failed c.get_storage_iscsi_target_list _ e healthy.list failed)))

    steps-errs :
        (d : Config) (n : ℕ) (plan : Plan) (w : W)
        → (HasNamed plan.name (listed c w) → ⊥)
        → ((lun : ℤ) (w' : W) → settles c n lun w' ≡ true)
        → Ends (no_iqn plan.name) (
            (admit c plan
                >> (provision c d plan >>= λ p. wait_for_lun c n p.lun >> publish c d plan p))
              w)
    steps-errs d n plan w new calm =
        Ends-bind (errs Never) (no_iqn plan.name) (admit c plan) _ w (admit-errs plan w new)
          (λ _ w' _.
            Ends-bind (errs Never) (no_iqn plan.name) (provision c d plan) _ w'
              (provision-errs d plan w')
              (λ p w'' _.
                Ends-bind (errs Never) (no_iqn plan.name) (wait_for_lun c n p.lun) _ w''
                  (wait-errs n p.lun w'' (calm p.lun w'')) (λ _ u _. publish-errs d plan p u)
                  (λ _ _ _ h. absurd h) (λ _ h. h))
              (λ _ _ _ h. absurd h) (λ _ h. h))
          (λ _ _ _ h. absurd h) (λ _ h. h)

    -- On a NAS where no call of CreateVolume fails, where from any state one of n looks at a LUN in
    -- a row finds it no longer being created, and with fuel for n looks: a valid request whose
    -- cleaned name no listed target has gets a reply with a volume as the request asks for, unless
    -- the list that the NAS gives last has no target of that name, or has it first with a blank IQN:
    -- then the error says so. CreateVolume does not wait on.
    pub create_volume_succeeds :
        (libs : Libraries) (d : Config) (n fuel size : ℕ) (req : CreateVolumeRequest) (w : W)
        → IsValid libs req size
        → (HasNamed (clean_iscsi_name req.name) (listed c w) → ⊥)
        → ((lun : ℤ) (w' : W) → settles c n lun w' ≡ true)
        → n ≤ fuel
        → Ends (served libs d req) (create_volume c libs d fuel req w)
    unfolding create_volume
    create_volume_succeeds libs d n fuel size req w valid new calm le =
        let plan : Plan = record { name = clean_iscsi_name req.name; size = pos size } in
        let (_, same) = create_volume_ends c libs d n fuel req w calm le in
        rw same (
          both-Ends (replied c libs d req) (no_iqn (clean_iscsi_name req.name))
            (create_volume c libs d n req w) (create_volume-replied c libs d n req w)
            (rw (valid-check libs req size valid) (steps-errs d n plan w new calm)))
