-- ===== src/Driver/Create/Taken.antt =====
-- When CreateVolume says that the volume exists.
use mathlib.Core.Path.{subst}
use qnap_csi.Base.{
  ◌≡◌, refl, ◌↔◌, true, List, arith, Text, ok, ◌∙◌, sym, Bool, false, if◌then◌else◌, lit, ℕ, zero,
  suc,
}
use qnap_csi.Base.Int.{ℤ}
use qnap_csi.Qnap.Types.{StorageIscsiTargetInfo}
use qnap_csi.Qnap.Client.{Client}
use qnap_csi.Driver.Handler.{
  Code, already_exists, Outcome, reply, status, panics, still_waiting, Ending, Ends, Ends-bind,
  Ends-call, ◌>>=◌, ◌>>◌, continue, fail, pure,
}
use qnap_csi.Driver.Config.{Config, Libraries}
use qnap_csi.Name.{clean_iscsi_name}
use qnap_csi.Driver.Create.Listed.{HasNamed, has_target_iff}
use qnap_csi.Driver.Create.Valid.{IsValid, valid-check, passed-IsValid}
use qnap_csi.Driver.Create.{
  CreateVolumeRequest, Volume, Plan, Pieces, check_request, check_capabilities, check_violations,
  sized, check_size, has_target, admit, provision, wait_for_lun, publish, create_volume,
  login_failed, list_failed,
}

-- The code of an error, none for any other end.
abbrev pub HasCode : {A : Type 0} → Code → Outcome A → Type 0
HasCode code (status code' message) = code' ≡ code
HasCode code _ = ⊥

check_request-code :
    (libs : Libraries) (req : CreateVolumeRequest)
    → HasCode already_exists (check_request libs req)
    → ⊥
unfolding check_request check_capabilities check_violations check_size sized
check_request-code libs req = ground arith

abbrev NotReply : {A : Type 0} → Outcome A → Type 0
NotReply (reply a) = ⊥
NotReply _ = Unit

not-reply : {P : Type 0} {A : Type 0} {a : A} {r : Outcome A} → reply a ≡ r → NotReply r → P
not-reply e h = absurd (subst NotReply (sym e) h)

module _ {W : Type 0} (c : Client W) where
  -- Where the NAS answers that a target has the name.
  abbrev pub Refused : Text → W → Type 0
  Refused name w =
      ((c.login w).0 ≡ ok tt)
      × ((ts : List StorageIscsiTargetInfo) × ((c.get_storage_iscsi_target_list (c.login w).1).0
            ≡ ok ts)
          × HasNamed name ts)

  -- An end that says so only for a reason.
  abbrev only_if : {A : Type 0} → Type 0 → Ending W A
  only_if R = record {
    at_reply = λ _ _. Unit;
    at_status = λ code _ _. code ≡ already_exists → R;
    at_wait = λ _. Unit;
  }

  admit-only_if : (plan : Plan) (w : W) → Ends (only_if (Refused plan.name w)) (admit c plan w)
  unfolding admit
  admit-only_if plan w =
      Ends-call E c.login login_failed _ w
        (λ _ logged_in.
          Ends-call E c.get_storage_iscsi_target_list list_failed _ (c.login w).1
            (λ ts listed_them. taken ts (has_target plan.name ts) refl logged_in listed_them)
            (λ _ _ e. cc))
        (λ _ _ e. cc)
    where
      E : Ending W (Unit {0})
      E = only_if (Refused plan.name w)

      taken :
          (ts : List StorageIscsiTargetInfo) (b : Bool)
          → has_target plan.name ts ≡ b
          → (c.login w).0 ≡ ok tt
          → (c.get_storage_iscsi_target_list (c.login w).1).0 ≡ ok ts
          → Ends E (
              (if b then fail already_exists (lit "Volume already exists") else pure tt)
                (c.get_storage_iscsi_target_list (c.login w).1).1)
      taken ts true found logged_in listed_them =
          λ _. (logged_in, (ts, listed_them, (has_target_iff plan.name ts).0.0 found))
      taken ts false absent logged_in listed_them = tt

  -- No other step says that the volume exists.
  provision-other : (d : Config) (plan : Plan) (w : W) → Ends (only_if ⊥) (provision c d plan w)
  unfolding provision
  provision-other d plan w = ground arith

  wait-other : (fuel : ℕ) (lun : ℤ) (w : W) → Ends (only_if ⊥) (wait_for_lun c fuel lun w)
  unfolding wait_for_lun
  wait-other zero lun w = tt
  wait-other (suc fuel) lun w =
      ground (arith, wait-other fuel lun (c.get_storage_iscsi_lun lun w).1)

  publish-other :
      (d : Config) (plan : Plan) (p : Pieces) (w : W) → Ends (only_if ⊥) (publish c d plan p w)
  unfolding publish
  publish-other d plan p w = ground arith

  code-only_if :
      {A : Type 0} (R : Type 0) (r : Outcome A × W)
      → Ends (only_if R) r
      → HasCode already_exists r.0
      → R
  code-only_if R (reply a, w) h e = absurd e
  code-only_if R (status code message, w) h e = h e
  code-only_if R (panics, w) h e = absurd h
  code-only_if R (still_waiting, w) h e = absurd e

  rest-only_if :
      (d : Config) (fuel : ℕ) (plan : Plan) (w : W)
      → Ends (only_if (Refused plan.name w)) (
          (admit c plan
              >> (provision c d plan >>= λ p. wait_for_lun c fuel p.lun >> publish c d plan p))
            w)
  rest-only_if d fuel plan w =
      Ends-bind E E (admit c plan) _ w (admit-only_if plan w)
        (λ _ w' _.
          Ends-bind no_reason E (provision c d plan) _ w' (provision-other d plan w')
            (λ p w'' _.
              Ends-bind no_reason E (wait_for_lun c fuel p.lun) _ w'' (wait-other fuel p.lun w'')
                (λ _ u _. weaken (publish c d plan p u) (publish-other d plan p u))
                (λ _ _ _ h e. absurd (h e)) (λ _ h. h))
            (λ _ _ _ h e. absurd (h e)) (λ _ h. h))
        (λ _ _ _ h. h) (λ _ h. h)
    where
      E : {A : Type 0} → Ending W A
      E = only_if (Refused plan.name w)

      no_reason : {A : Type 0} → Ending W A
      no_reason = only_if ⊥

      weaken :
          (r : Outcome Volume × W) → Ends (only_if ⊥) r → Ends (only_if (Refused plan.name w)) r
      weaken (reply v, u) h = tt
      weaken (status code message, u) h = λ e. absurd (h e)
      weaken (panics, u) h = h
      weaken (still_waiting, u) h = tt

  Refused-code :
      (d : Config) (fuel : ℕ) (plan : Plan) (w : W)
      → Refused plan.name w
      → HasCode already_exists
          ((admit c plan
              >> (provision c d plan >>= λ p. wait_for_lun c fuel p.lun >> publish c d plan p))
            w).0
  unfolding admit
  Refused-code d fuel plan w (logged_in, (ts, listed_them, taken)) =
      let found = (has_target_iff plan.name ts).0.1 taken in ground arith

  -- CreateVolume says that the volume exists exactly when the request is valid, that is, it has a
  -- name, capabilities without violations and a capacity range that stands for a size, the login
  -- succeeds and the NAS lists a target whose name is the cleaned name of the request.
  pub create_volume_exists_iff :
      (libs : Libraries) (d : Config) (fuel : ℕ) (req : CreateVolumeRequest) (w : W)
      → HasCode already_exists (create_volume c libs d fuel req w).0
        ↔ (((n : ℕ) × IsValid libs req n) × Refused (clean_iscsi_name req.name) w)
  unfolding create_volume
  create_volume_exists_iff libs d fuel req w = go (check_request libs req) refl
    where
      go :
          (r : Outcome Plan)
          → check_request libs req ≡ r
          → HasCode already_exists
              (continue r
                (λ plan.
                  admit c plan
                  >> (provision c d plan >>= λ p. wait_for_lun c fuel p.lun >> publish c d plan p))
                w).0
            ↔ (((n : ℕ) × IsValid libs req n) × Refused (clean_iscsi_name req.name) w)
      go (reply plan) e = (
        λ h.
            let (valid, named) = passed-IsValid libs req plan e in
            (
              valid,
              subst (λ n. Refused n w) named
                  (code-only_if (Refused plan.name w) _ (rest-only_if d fuel plan w) h),
            ),
        λ (_, refused).
            Refused-code d fuel plan w
              (subst (λ n. Refused n w) (sym (passed-IsValid libs req plan e).1) refused),
      )
      go (status code message) e = (
        λ h. absurd (check_request-code libs req (subst (HasCode already_exists) (sym e) h)),
        λ ((n, valid), _). not-reply (sym (valid-check libs req n valid) ∙ e) tt,
      )
      go panics e =
          (λ h. absurd h, λ ((n, valid), _). not-reply (sym (valid-check libs req n valid) ∙ e) tt)
      go still_waiting e =
          (λ h. absurd h, λ ((n, valid), _). not-reply (sym (valid-check libs req n valid) ∙ e) tt)
