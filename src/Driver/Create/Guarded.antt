-- ===== src/Driver/Create/Guarded.antt =====
-- An invariant of the NAS that CreateVolume keeps, whatever comes of it, if the calls of the client do.
use mathlib.Core.Path.{subst}
use qnap_csi.Base.{
  ℕ, zero, suc, ◌≡◌, true, false, Bool-cases, inl, inr, List, Text, is_blank, arith, ok, [],
}
use qnap_csi.Base.Int.{ℤ, pos}
use qnap_csi.Size.Format.{gi_b}
use qnap_csi.Name.{clean_iscsi_name}
use qnap_csi.Qnap.Types.{StorageIscsiTargetInfo}
use qnap_csi.Qnap.Client.{Client}
use qnap_csi.Driver.Handler.{
  Outcome, reply, status, panics, still_waiting, Ending, Ends, Ends-bind, Ends-call, Ends-call_or,
  ◌>>=◌, ◌>>◌, continue, ignore,
}
use qnap_csi.Driver.Config.{Config, Libraries}
use qnap_csi.Driver.Create.{
  CreateVolumeRequest, Plan, Pieces, quotient, check_request, has_target, iqn_of, admit, provision,
  wait_for_lun, publish, create_volume, login_failed, list_failed,
}
use qnap_csi.Driver.Create.Replies.{check_request-Passes, Passes}

-- `Inv` is kept by each call that CreateVolume makes. A list without the name gives `New` as well,
-- behind which a target of the name may be created.
pub record Guard {W : Type 0} (c : Client W) (name : Text) : Type 1 where
  pub Inv : W → Type 0
  pub New : W → Type 0
  pub login : (w : W) → Inv w → Inv (c.login w).1
  pub list : (w : W) → Inv w → Inv (c.get_storage_iscsi_target_list w).1
  pub listed :
      (w : W) (ts : List StorageIscsiTargetInfo)
      → Inv w
      → (c.get_storage_iscsi_target_list w).0 ≡ ok ts
      → has_target name ts ≡ false
      → New (c.get_storage_iscsi_target_list w).1
  pub create_target :
      (w : W) → New w → Inv (c.create_storage_iscsi_target name false false true w).1
  pub create_initiator :
      (target : ℤ) (w : W)
      → Inv w
      → Inv (c.create_storage_iscsi_initiator target false [] [] false [] [] w).1
  pub create_lun :
      (pool capacity : ℤ) (w : W)
      → Inv w
      → Inv
          (c.create_storage_iscsi_block_lun name pool capacity false
            (pos 512)
            false
            false
            false
            false
            w).1
  pub look : (lun : ℤ) (w : W) → Inv w → Inv (c.get_storage_iscsi_lun lun w).1
  pub attach :
      (lun target : ℤ) (w : W) → Inv w → Inv (c.attach_storage_iscsi_target_lun lun target w).1
  pub delete_target : (i : ℤ) (w : W) → Inv w → Inv (c.delete_storage_iscsi_target i w).1
  pub delete_lun : (i : ℤ) (w : W) → Inv w → Inv (c.delete_storage_iscsi_block_lun i false w).1

-- At each end but a panic, of which there is none.
abbrev pub always : {W A : Type 0} → (W → Type 0) → Ending W A
always P = record { at_reply = λ _ w. P w; at_status = λ _ _ w. P w; at_wait = λ w. P w }

module _ {W : Type 0} (c : Client W) (plan : Plan) (G : Guard c plan.name) where
  abbrev admitted : Ending W (Unit {0})
  admitted = record { at_reply = λ _ w. G.New w; at_status = λ _ _ w. G.Inv w; at_wait = λ w. ⊥ }

  admit-guarded : (w : W) → G.Inv w → Ends admitted (admit c plan w)
  unfolding admit
  admit-guarded w d =
      Ends-call admitted c.login login_failed _ w
        (λ _ _.
          Ends-call admitted c.get_storage_iscsi_target_list list_failed _ (c.login w).1
            (λ ts told. elim (Bool-cases (has_target plan.name ts)) [
              | inl taken ↦ rw taken (G.list _ (G.login w d))
              | inr new ↦ rw new (G.listed _ ts (G.login w d) told new)
            ])
            (λ _ _. G.list _ (G.login w d)))
        (λ _ _. G.login w d)

  provision-guarded : (e : Config) (w : W) → G.New w → Ends (always G.Inv) (provision c e plan w)
  unfolding provision
  provision-guarded e w new =
      Ends-call_or (always G.Inv) (c.create_storage_iscsi_target plan.name false false true) _ _ _ w
        (λ target _.
          Ends-call_or (always G.Inv)
            (c.create_storage_iscsi_initiator target false [] [] false [] [])
            (ignore (c.delete_storage_iscsi_target target)) _ _ _
            (λ _ _.
              Ends-call_or (always G.Inv)
                (c.create_storage_iscsi_block_lun plan.name e.storage_pool_id
                  (quotient plan.size gi_b) false (pos 512) false false false false)
                (ignore (c.delete_storage_iscsi_target target)) _ _ _
                (λ _ _. G.create_lun _ _ _ (G.create_initiator target _ made))
                (λ _ _.
                  G.delete_target target _ (G.create_lun _ _ _ (G.create_initiator target _ made))))
            (λ _ _. G.delete_target target _ (G.create_initiator target _ made)))
        (λ _ _. made)
    where
      made : G.Inv (c.create_storage_iscsi_target plan.name false false true w).1
      made = G.create_target w new

  wait-guarded :
      (fuel : ℕ) (lun : ℤ) (w : W) → G.Inv w → Ends (always G.Inv) (wait_for_lun c fuel lun w)
  unfolding wait_for_lun
  wait-guarded zero lun w d = d
  wait-guarded (suc fuel) lun w d =
      ground (arith, wait-guarded fuel lun (c.get_storage_iscsi_lun lun w).1, G.look lun w)

  publish-guarded :
      (e : Config) (p : Pieces) (w : W) → G.Inv w → Ends (always G.Inv) (publish c e plan p w)
  unfolding publish
  publish-guarded e p w d =
      Ends-call_or (always G.Inv) (c.attach_storage_iscsi_target_lun p.lun p.target) _ _ _ w
        (λ _ _.
          Ends-call (always G.Inv) c.get_storage_iscsi_target_list list_failed _ _
            (λ ts _. elim (Bool-cases (is_blank (iqn_of plan.name ts))) [
              | inl blank ↦ rw blank (G.list _ joined)
              | inr found ↦ rw found (G.list _ joined)
            ])
            (λ _ _. G.list _ joined))
        (λ _ _. G.delete_lun p.lun _ (G.delete_target p.target _ joined))
    where
      joined : G.Inv (c.attach_storage_iscsi_target_lun p.lun p.target w).1
      joined = G.attach p.lun p.target w d

  pub steps-guarded :
      (e : Config) (fuel : ℕ) (w : W)
      → G.Inv w
      → Ends (always G.Inv) (
          (admit c plan
              >> (provision c e plan >>= λ p. wait_for_lun c fuel p.lun >> publish c e plan p))
            w)
  steps-guarded e fuel w d =
      Ends-bind admitted (always G.Inv) (admit c plan) _ w (admit-guarded w d)
        (λ _ w' new.
          Ends-bind (always G.Inv) (always G.Inv) (provision c e plan) _ w'
            (provision-guarded e w' new)
            (λ p u du.
              Ends-bind (always G.Inv) (always G.Inv) (wait_for_lun c fuel p.lun) _ u
                (wait-guarded fuel p.lun u du) (λ _ t dt. publish-guarded e p t dt) (λ _ _ _ h. h)
                (λ _ h. h))
            (λ _ _ _ h. h) (λ _ h. h))
        (λ _ _ _ h. h) (λ _ h. absurd h)

module _ {W : Type 0} (c : Client W) (libs : Libraries) (e : Config)
    (req : CreateVolumeRequest) where
  -- What holds at each end of CreateVolume if it holds before.
  pub create_volume-guarded :
      (G : Guard c (clean_iscsi_name req.name)) (fuel : ℕ) (w : W)
      → G.Inv w
      → Ends (always G.Inv) (create_volume c libs e fuel req w)
  unfolding create_volume
  create_volume-guarded G fuel w d = go (check_request libs req) (check_request-Passes libs req)
    where
      go :
          (r : Outcome Plan)
          → Passes libs req r
          → Ends (always G.Inv) (
              continue r
                (λ plan.
                  admit c plan
                  >> (provision c e plan >>= λ p. wait_for_lun c fuel p.lun >> publish c e plan p))
                w)
      go (reply plan) (_, named, _, _) =
          subst
            (λ name.
              (G : Guard c name)
              → G.Inv w
              → Ends (always G.Inv) (
                  (admit c plan
                      >> (provision c e plan >>= λ p.
                          wait_for_lun c fuel p.lun >> publish c e plan p))
                    w))
            named (λ G' d'. steps-guarded c plan G' e fuel w d') G d
      go (status code message) passes = d
      go panics passes = absurd passes
      go still_waiting passes = absurd passes
