-- ===== src/Driver/Create/Replies.antt =====
-- What CreateVolume replies, and the requests that it refuses.
use mathlib.Core.Path.{subst}
use mathlib.Core.List.{cons-ne-nil}
use qnap_csi.Base.{
  ℕ, zero, suc, ◌*◌, ◌/◌, ◌≡◌, ◌≢◌, refl, sym, ap, ◌∙◌, false, Option, none, some, Result, err,
  Bool-cases, inl, inr, if◌then◌else◌, List, [], ◌∷◌, arith, Text, lit, is_blank, ok,
}
use qnap_csi.Base.Int.{ℤ, pos}
use qnap_csi.Size.{CapacityRange, extract_storage}
use qnap_csi.Size.Format.{gi_b}
use qnap_csi.Size.Laws.{Grants, extract_storage_iff, Grants-IsVolumeSize}
use qnap_csi.Name.{clean_iscsi_name}
use qnap_csi.Qnap.Types.{StorageIscsiTargetInfo}
use qnap_csi.Qnap.Client.{Client}
use qnap_csi.Driver.Create.Listed.{FirstIqn, iqn_of-FirstIqn}
use qnap_csi.Driver.Handler.{
  Outcome, reply, status, panics, still_waiting, Ending, Ends, Ends-bind, Ends-call, Ends-call_or,
  pure, fail, internal, ◌>>=◌, ◌>>◌, continue,
}
use qnap_csi.Driver.Capabilities.{VolumeCapability, validate_capabilities}
use qnap_csi.Driver.Config.{Config, Libraries}
use qnap_csi.Driver.Create.{
  CreateVolumeRequest, Volume, Plan, Pieces, quotient, check_request, check_capabilities,
  check_violations, sized, check_size, admit, provision, wait_for_lun, publish, create_volume,
  volume_of, iqn_of, list_failed, iqn_failed,
}

-- What the checks let through.
abbrev pub Passes : Libraries → CreateVolumeRequest → Outcome Plan → Type 0
Passes libs req (reply plan) =
    (is_blank req.name ≡ false)
    × (plan.name ≡ clean_iscsi_name req.name)
    × (extract_storage req.capacity_range ≡ ok plan.size)
    × ((caps : List VolumeCapability) × (req.volume_capabilities ≡ some caps)
        × (caps ≢ [])
        × (validate_capabilities libs.modes libs.strings caps ≡ []))
Passes libs req (status code message) = Unit
Passes libs req panics = ⊥
Passes libs req still_waiting = ⊥

-- The same of the parts of `check_request`, with the values that they test put in front.
size-Passes :
    (libs : Libraries) (req : CreateVolumeRequest) (caps : List VolumeCapability)
    → is_blank req.name ≡ false
    → req.volume_capabilities ≡ some caps
    → caps ≢ []
    → validate_capabilities libs.modes libs.strings caps ≡ []
    → Passes libs req (check_size req.name req.capacity_range)
unfolding check_size
size-Passes libs req caps given e ne fine = go (extract_storage req.capacity_range) refl
  where
    go :
        (r : Result ℤ) → extract_storage req.capacity_range ≡ r → Passes libs req (sized req.name r)
    go (ok size) granted = (given, refl, granted, (caps, e, ne, fine))
    go (err message) refused = tt

violations-Passes :
    (libs : Libraries) (req : CreateVolumeRequest) (caps : List VolumeCapability) (vs : List Text)
    → is_blank req.name ≡ false
    → req.volume_capabilities ≡ some caps
    → caps ≢ []
    → validate_capabilities libs.modes libs.strings caps ≡ vs
    → Passes libs req (check_violations vs req.name req.capacity_range)
unfolding check_violations
violations-Passes libs req caps [] given e ne fine = size-Passes libs req caps given e ne fine
violations-Passes libs req caps (v ∷ vs) given e ne bad = tt

capabilities-Passes :
    (libs : Libraries) (req : CreateVolumeRequest) (caps : Option (List VolumeCapability))
    → is_blank req.name ≡ false
    → req.volume_capabilities ≡ caps
    → Passes libs req (check_capabilities libs caps req.name req.capacity_range)
unfolding check_capabilities
capabilities-Passes libs req none given e = tt
capabilities-Passes libs req (some []) given e = tt
capabilities-Passes libs req (some (c ∷ cs)) given e =
    violations-Passes libs req (c ∷ cs) _ given e (cons-ne-nil c cs) refl

pub check_request-Passes :
    (libs : Libraries) (req : CreateVolumeRequest) → Passes libs req (check_request libs req)
unfolding check_request
check_request-Passes libs req = elim (Bool-cases (is_blank req.name)) [
  | inl blank ↦ rw blank tt
  | inr given ↦ rw given (capabilities-Passes libs req req.volume_capabilities given refl)
]

-- The last call was for the list of targets, whose first one of the name has the IQN.
abbrev pub LastListed : {W : Type 0} → Client W → Text → Text → W → Type 0
LastListed {W} c name iqn w =
    (u : W) × (ts : List StorageIscsiTargetInfo) × (c.get_storage_iscsi_target_list u ≡ (ok ts, w))
    × FirstIqn name iqn ts

-- What a reply tells, in the state behind it.
abbrev pub IsVolumeFor :
    {W : Type 0} → Client W → Libraries → Config → CreateVolumeRequest → Volume → W → Type 0
IsVolumeFor c libs d req v w =
    (is_blank req.name ≡ false)
    × ((caps : List VolumeCapability) × (req.volume_capabilities ≡ some caps)
        × (caps ≢ [])
        × (validate_capabilities libs.modes libs.strings caps ≡ []))
    × (v.volume_id ≡ clean_iscsi_name req.name)
    × ((n : ℕ) × (v.capacity_bytes ≡ pos n)
        × Grants req.capacity_range n
        × ((gib : ℕ) × (quotient v.capacity_bytes gi_b ≡ pos gib) × (gib * gi_b ≡ n)))
    × ((iqn : Text) × (is_blank iqn ≡ false)
        × LastListed c (clean_iscsi_name req.name) iqn w
        × (v.volume_context
            ≡ (lit "targetPortal", d.portal)
              ∷ (lit "iqn", iqn)
              ∷ (lit "lun", lit "0")
              ∷ (lit "portals", lit "[]")
              ∷ []))

-- A size that is granted is a whole number of GiB.
whole_gib :
    (range : Option CapacityRange) (n : ℕ)
    → Grants range n
    → (gib : ℕ) × (quotient (pos n) gi_b ≡ pos gib) × (gib * gi_b ≡ n)
unfolding quotient
whole_gib range n g = (n / gi_b, refl, omega (arith, Grants-IsVolumeSize range n g))

volume_of-IsVolumeFor :
    {W : Type 0} (c : Client W) (libs : Libraries) (d : Config) (req : CreateVolumeRequest)
    (plan : Plan) (iqn : Text) (w : W)
    → Passes libs req (reply plan)
    → is_blank iqn ≡ false
    → LastListed c plan.name iqn w
    → IsVolumeFor c libs d req (volume_of d plan iqn) w
unfolding volume_of
volume_of-IsVolumeFor c libs d req plan iqn w (given, named, granted, caps) found listed =
    let (n, e, g) = (extract_storage_iff req.capacity_range plan.size).0 granted in
    (
      given,
      caps,
      named,
      (n, e, g, rw e (whole_gib req.capacity_range n g)),
      (iqn, found, subst (λ name. LastListed c name iqn w) named listed, refl),
    )

module _ {W : Type 0} (c : Client W) where
  -- Anything but a panic; a wait is allowed.
  abbrev anyhow : {A : Type 0} → Ending W A
  anyhow = record { at_reply = λ _ _. Unit; at_status = λ _ _ _. Unit; at_wait = λ _. Unit }

  admit-anyhow : (plan : Plan) (w : W) → Ends anyhow (admit c plan w)
  unfolding admit
  admit-anyhow plan w = ground arith

  provision-anyhow : (d : Config) (plan : Plan) (w : W) → Ends anyhow (provision c d plan w)
  unfolding provision
  provision-anyhow d plan w = ground arith

  wait-anyhow : (fuel : ℕ) (lun : ℤ) (w : W) → Ends anyhow (wait_for_lun c fuel lun w)
  unfolding wait_for_lun
  wait-anyhow zero lun w = tt
  wait-anyhow (suc fuel) lun w =
      ground (arith, wait-anyhow fuel lun (c.get_storage_iscsi_lun lun w).1)

  pub listing :
      (name : Text) (u : W) (ts : List StorageIscsiTargetInfo)
      → (c.get_storage_iscsi_target_list u).0 ≡ ok ts
      → LastListed c name (iqn_of name ts) (c.get_storage_iscsi_target_list u).1
  listing name u ts told =
      (u, ts, ap (λ r. (r, (c.get_storage_iscsi_target_list u).1)) told, iqn_of-FirstIqn name ts)

  abbrev published : Config → Plan → Ending W Volume
  published d plan = record {
    at_reply = λ v w.
        (iqn : Text) × (is_blank iqn ≡ false)
        × LastListed c plan.name iqn w
        × (v ≡ volume_of d plan iqn);
    at_status = λ _ _ _. Unit;
    at_wait = λ _. Unit;
  }

  abbrev pub replied : Libraries → Config → CreateVolumeRequest → Ending W Volume
  replied libs d req = record {
    at_reply = λ v w. IsVolumeFor c libs d req v w;
    at_status = λ _ _ _. Unit;
    at_wait = λ _. Unit;
  }

  looked_up :
      (d : Config) (plan : Plan) (iqn : Text) (w : W)
      → LastListed c plan.name iqn w
      → Ends
          (published d plan)
          ((if is_blank iqn then fail internal iqn_failed else pure (volume_of d plan iqn)) w)
  looked_up d plan iqn w listed = elim (Bool-cases (is_blank iqn)) [
    | inl blank ↦ rw blank tt
    | inr found ↦ rw found (iqn, found, listed, refl)
  ]

  publish-Ends :
      (d : Config) (plan : Plan) (p : Pieces) (w : W)
      → Ends (published d plan) (publish c d plan p w)
  unfolding publish
  publish-Ends d plan p w =
      Ends-call_or (published d plan) (c.attach_storage_iscsi_target_lun p.lun p.target) _ _ _ w
        (λ _ _.
          Ends-call (published d plan) c.get_storage_iscsi_target_list list_failed _ _
            (λ ts told. looked_up d plan (iqn_of plan.name ts) _ (listing plan.name _ ts told))
            (λ _ _. tt))
        (λ _ _. tt)

  published-replied :
      (libs : Libraries) (d : Config) (req : CreateVolumeRequest) (plan : Plan)
      → Passes libs req (reply plan)
      → (r : Outcome Volume × W) → Ends (published d plan) r
      → Ends (replied libs d req) r
  published-replied libs d req plan passes (reply v, w) (iqn, found, listed, e) =
      rw e (volume_of-IsVolumeFor c libs d req plan iqn w passes found listed)
  published-replied libs d req plan passes (status code message, w) h = tt
  published-replied libs d req plan passes (panics, w) h = h
  published-replied libs d req plan passes (still_waiting, w) h = tt

  pub create_volume-replied :
      (libs : Libraries) (d : Config) (fuel : ℕ) (req : CreateVolumeRequest) (w : W)
      → Ends (replied libs d req) (create_volume c libs d fuel req w)
  unfolding create_volume
  create_volume-replied libs d fuel req w =
      go (check_request libs req) (check_request-Passes libs req)
    where
      E : Ending W Volume
      E = replied libs d req

      go :
          (r : Outcome Plan)
          → Passes libs req r
          → Ends E (
              continue r
                (λ plan.
                  admit c plan
                  >> (provision c d plan >>= λ p. wait_for_lun c fuel p.lun >> publish c d plan p))
                w)
      go (reply plan) passes =
          Ends-bind anyhow E (admit c plan) _ w (admit-anyhow plan w)
            (λ _ w' _.
              Ends-bind anyhow E (provision c d plan) _ w' (provision-anyhow d plan w')
                (λ p w'' _.
                  Ends-bind anyhow E (wait_for_lun c fuel p.lun) _ w'' (wait-anyhow fuel p.lun w'')
                    (λ _ u _.
                      published-replied libs d req plan passes (publish c d plan p u)
                        (publish-Ends d plan p u))
                    (λ _ _ _ _. tt) (λ _ _. tt))
                (λ _ _ _ _. tt) (λ _ _. tt))
            (λ _ _ _ _. tt) (λ _ _. tt)
      go (status code message) passes = tt
      go panics passes = absurd passes
      go still_waiting passes = absurd passes

  -- The plan behind a reply.
  pub planned :
      (libs : Libraries) (d : Config) (fuel : ℕ) (req : CreateVolumeRequest) (v : Volume) (w w' : W)
      → create_volume c libs d fuel req w ≡ (reply v, w')
      → (plan : Plan) × (check_request libs req ≡ reply plan) × (plan.name ≡ v.volume_id)
  unfolding create_volume
  planned libs d fuel req v w w' made =
      go (check_request libs req) (check_request-Passes libs req) refl (ap (λ r. r.0) made)
    where
      named : v.volume_id ≡ clean_iscsi_name req.name
      named =
          let (given, caps, id, size, context) : IsVolumeFor c libs d req v w' =
            subst (Ends (replied libs d req)) made (create_volume-replied libs d fuel req w) in
          id

      go :
          (r : Outcome Plan)
          → Passes libs req r
          → check_request libs req ≡ r
          → (continue r
              (λ plan.
                admit c plan
                >> (provision c d plan >>= λ p. wait_for_lun c fuel p.lun >> publish c d plan p))
              w).0
            ≡ reply v
          → (plan : Plan) × (check_request libs req ≡ reply plan) × (plan.name ≡ v.volume_id)
      go (reply plan) (given, cleaned, size, caps) e _ = (plan, e, cleaned ∙ sym named)
      go (status code message) _ e h = absurd (cc h)
      go panics _ e h = absurd (cc h)
      go still_waiting _ e h = absurd (cc h)
