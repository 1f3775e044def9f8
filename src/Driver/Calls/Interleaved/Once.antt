-- ===== src/Driver/Calls/Interleaved/Once.antt =====
-- How many targets of its name CreateVolume leaves behind while other handlers act.
use qnap_csi.Base.{
  ℕ, suc, ◌≤◌, ◌≡◌, refl, sym, ap, ◌∙◌, true, false, inl, inr, List, [], ◌∷◌, ◌++◌, Text, text_eq,
  All, arith, ok, if◌then◌else◌,
}
use qnap_csi.Base.Int.{ℤ, pos}
use qnap_csi.Name.{clean_iscsi_name}
use qnap_csi.Qnap.Types.{StorageIscsiTargetInfo}
use qnap_csi.Qnap.Client.{Method, Client}
use qnap_csi.Qnap.Contract.{Contract, Volumes, has_name, without_index}
use qnap_csi.Driver.Handler.{Outcome, reply, status, panics, still_waiting, Ending, Ends}
use qnap_csi.Driver.Config.{Config, Libraries}
use qnap_csi.Driver.Create.{CreateVolumeRequest, Volume, has_target, create_volume}
use qnap_csi.Driver.Create.Guarded.{Guard, always, create_volume-guarded}
use qnap_csi.Driver.Create.Refines.{has_target-has_name}
use qnap_csi.Driver.Calls.Interleaved.{
  Act, logs_in, lists, looks, creates_target, creates_initiator, creates_lun, attaches,
  deletes_target, deletes_lun, act, acts, Shared, others, between, interleaved,
}

-- How many targets have the name.
abbrev pub times : Text → Volumes → ℕ
times name [] = 0
times name ((i, n) ∷ vs) = let rest = times name vs in if text_eq n name then suc rest else rest

times-added_other :
    (name : Text) (i : ℤ) (n : Text) (vs : Volumes)
    → text_eq n name ≡ false
    → times name (vs ++ (i, n) ∷ []) ≡ times name vs
times-added_other name i n [] h = rw h refl
times-added_other name i n ((j, m) ∷ vs) h = ground (arith, times-added_other name i n vs h)

times-added :
    (name : Text) (i : ℤ) (n : Text) (vs : Volumes)
    → times name (vs ++ (i, n) ∷ []) ≤ suc (times name vs)
times-added name i n [] = ground arith
times-added name i n ((j, m) ∷ vs) = ground (arith, times-added name i n vs)

times-without :
    (name : Text) (i : ℤ) (vs : Volumes) → times name (without_index i vs) ≤ times name vs
times-without name i [] = omega arith
times-without name i ((j, m) ∷ vs) = ground (arith, times-without name i vs)

times_zero : (name : Text) (vs : Volumes) → has_name name vs ≡ false → times name vs ≡ 0
times_zero name [] h = refl
times_zero name ((j, m) ∷ vs) h = ground (arith, times_zero name vs)

-- It creates no target of the name.
abbrev pub Spares : Text → Act → Type 0
Spares name (creates_target n) = text_eq n name ≡ false
Spares name _ = Unit

module _ {W : Type 0} (c : Client W) (K : Contract c) (name : Text) where
  abbrev Fewer : W → W → Type 0
  Fewer w' w = times name (K.volumes w') ≤ times name (K.volumes w)

  same : (w w' : W) → K.volumes w' ≡ K.volumes w → Fewer w' w
  same w w' e = rw e (omega arith)

  deleted : (i : ℤ) (w : W) → Fewer (c.delete_storage_iscsi_target i w).1 w
  deleted i w = elim (K.delete_target_any i w) [
    | inl kept ↦ same w _ kept
    | inr gone ↦ rw gone (times-without name i (K.volumes w))
  ]

  act-Fewer : (a : Act) (w : W) → Spares name a → Fewer (act c a w) w
  unfolding act
  act-Fewer logs_in w h = same w _ (K.login w)
  act-Fewer lists w h = same w _ (K.list w)
  act-Fewer (looks lun) w h = same w _ (K.look lun w)
  act-Fewer (creates_target n) w h = elim (K.create_target_any n false false true w) [
    | inl kept ↦ same w _ kept
    | inr (i, _, added) ↦ rw (added, times-added_other name i n (K.volumes w) h) (omega arith)
  ]
  act-Fewer (creates_initiator target) w h = same w _ (K.create_initiator target w)
  act-Fewer (creates_lun n pool capacity) w h = same w _ (K.create_lun n pool capacity w)
  act-Fewer (attaches lun target) w h = same w _ (K.attach lun target w)
  act-Fewer (deletes_target target) w h = deleted target w
  act-Fewer (deletes_lun lun) w h = same w _ (K.delete_lun lun false w)

  acts-Fewer : (now : List Act) (w : W) → All (Spares name) now → Fewer (acts c now w) w
  unfolding acts
  acts-Fewer [] w h = omega arith
  acts-Fewer (a ∷ now) w (ha, h) =
      let l = act-Fewer a w ha in let l' = acts-Fewer now (act c a w) h in omega arith

  -- At most `k` targets of the name, and others that spare it.
  abbrev AtMost : ℕ → Shared c → Type 0
  AtMost k s = (times name (K.volumes s.0) ≤ k) × All (All (Spares name)) s.1

  others-AtMost : (k : ℕ) (s : Shared c) → AtMost k s → AtMost k (others c s)
  unfolding others
  others-AtMost k (w, []) h = h
  others-AtMost k (w, now ∷ rest) (few, (spare, spares)) =
      let l = acts-Fewer now w spare in (omega arith, spares)

  between-AtMost :
      {A : Type 0} (k k' : ℕ) (m : Method W A) (s : Shared c)
      → ((w : W) → times name (K.volumes w) ≤ k → times name (K.volumes (m w).1) ≤ k')
      → AtMost k s
      → AtMost k' (between c m s).1
  unfolding between
  between-AtMost k k' m s step h =
      let (few, spares) = others-AtMost k s h in (step (others c s).0 few, spares)

  keeps-AtMost :
      {A : Type 0} (k : ℕ) (m : Method W A) (s : Shared c)
      → ((w : W) → Fewer (m w).1 w)
      → AtMost k s
      → AtMost k (between c m s).1
  keeps-AtMost k m s fewer h = between-AtMost k k m s (λ w few. let l = fewer w in omega arith) h

  created :
      (w : W)
      → times name (K.volumes w) ≤ 0
      → times name (K.volumes (c.create_storage_iscsi_target name false false true w).1) ≤ 1
  created w none_yet = elim (K.create_target_any name false false true w) [
    | inl kept ↦ rw kept (omega arith)
    | inr (i, _, added) ↦ rw added (let l = times-added name i name (K.volumes w) in omega arith)
  ]

  none-listed :
      (s : Shared c) (ts : List StorageIscsiTargetInfo)
      → AtMost 1 s
      → (between c c.get_storage_iscsi_target_list s).0 ≡ ok ts
      → has_target name ts ≡ false
      → AtMost 0 (between c c.get_storage_iscsi_target_list s).1
  unfolding between
  none-listed s ts h told new =
      let w = (others c s).0 in
      let (_, spares) = others-AtMost 1 s h in
      (
        rw (K.list w) (
            rw
              (times_zero name (K.volumes w) (
                sym (ap (has_name name) (K.listed w ts told))
                ∙ sym (has_target-has_name name ts)
                ∙ new))
              (omega arith)),
        spares,
      )

  once_guard : Guard (interleaved c) name
  unfolding interleaved
  once_guard = record {
    Inv = AtMost 1;
    New = AtMost 0;
    login = λ s h. keeps-AtMost 1 c.login s (λ w. same w _ (K.login w)) h;
    list = λ s h. keeps-AtMost 1 c.get_storage_iscsi_target_list s (λ w. same w _ (K.list w)) h;
    listed = none-listed;
    create_target =
        λ s h. between-AtMost 0 1 (c.create_storage_iscsi_target name false false true) s created h;
    create_initiator = λ target s h.
        keeps-AtMost 1 (c.create_storage_iscsi_initiator target false [] [] false [] []) s
          (λ w. same w _ (K.create_initiator target w)) h;
    create_lun = λ pool capacity s h.
        keeps-AtMost 1
          (c.create_storage_iscsi_block_lun name pool capacity false (pos 512) false false false
            false)
          s (λ w. same w _ (K.create_lun name pool capacity w)) h;
    look =
        λ lun s h. keeps-AtMost 1 (c.get_storage_iscsi_lun lun) s (λ w. same w _ (K.look lun w)) h;
    attach = λ lun target s h.
        keeps-AtMost 1 (c.attach_storage_iscsi_target_lun lun target) s
          (λ w. same w _ (K.attach lun target w)) h;
    delete_target =
        λ i s h. keeps-AtMost 1 (c.delete_storage_iscsi_target i) s (λ w. deleted i w) h;
    delete_lun = λ i s h.
        keeps-AtMost 1 (c.delete_storage_iscsi_block_lun i false) s
          (λ w. same w _ (K.delete_lun i false w)) h;
  }

module _ {W : Type 0} (c : Client W) (K : Contract c) (libs : Libraries) (e : Config) where
  -- At each end but a panic, of which there is none, at most one target has the name.
  abbrev pub once : {A : Type 0} → Text → Ending (Shared c) A
  once name = always (λ s. times name (K.volumes s.0) ≤ 1)

  -- For a NAS that keeps the contract, on which at most one target has the name of the request, in
  -- the form that the NAS gets it: with any acts of other handlers between any two calls of
  -- CreateVolume, deletions of its target included, at most one target has the name at each end of
  -- CreateVolume, at errors of the NAS too, if no other handler creates a target of that name.
  pub create_volume-interleaved :
      (fuel : ℕ) (req : CreateVolumeRequest) (w : W) (schedule : List (List Act))
      → times (clean_iscsi_name req.name) (K.volumes w) ≤ 1
      → All (All (Spares (clean_iscsi_name req.name))) schedule
      → Ends
          (once (clean_iscsi_name req.name))
          (create_volume (interleaved c) libs e fuel req (w, schedule))
  unfolding once_guard
  create_volume-interleaved fuel req w schedule few spares =
      counted (create_volume (interleaved c) libs e fuel req (w, schedule)) (
        create_volume-guarded (interleaved c) libs e req
          (once_guard c K (clean_iscsi_name req.name)) fuel (w, schedule) (few, spares))
    where
      counted :
          (r : Outcome Volume × Shared c)
          → Ends (always (AtMost c K (clean_iscsi_name req.name) 1)) r
          → Ends (once (clean_iscsi_name req.name)) r
      counted (reply a, s) (h, _) = h
      counted (status code message, s) (h, _) = h
      counted (panics, s) h = h
      counted (still_waiting, s) (h, _) = h
