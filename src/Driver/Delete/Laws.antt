-- ===== src/Driver/Delete/Laws.antt =====
-- What DeleteVolume takes away, for every NAS and network.
use mathlib.Core.Path.{subst}
use qnap_csi.Base.{
  ◌≡◌, refl, sym, ap, false, List, [], ◌∷◌, onto, ◌++◌, map, Text, text_eq, is_blank, ok, err,
  Result, Bool-cases, inl, inr, if◌then◌else◌,
}
use qnap_csi.Base.Int.{ℤ}
use qnap_csi.Qnap.Types.{StorageIscsiTargetInfo}
use qnap_csi.Qnap.Client.{Client, Method, targets_of, listed}
use qnap_csi.Qnap.Ledger.{Event, target_deleted, lun_deleted, recorded, deletes, reads}
use qnap_csi.Driver.Handler.{
  Outcome, reply, status, panics, still_waiting, Ending, Ends, Handler, ◌>>◌, Ends-call, call,
}
use qnap_csi.Driver.Create.{login_failed, list_failed}
use qnap_csi.Driver.Delete.{delete_luns, delete_target, delete_first, delete_volume}

-- What the deletion of a volume is made of: the first target of the name, then its LUNs in order.
abbrev pub deletions : Text → List StorageIscsiTargetInfo → List Event
deletions name [] = []
deletions name (t ∷ ts) =
    let rest = deletions name ts in
    if text_eq t.name name
    then target_deleted t.target_index ∷ map lun_deleted t.target_luns
    else rest

-- All that is planned at a reply; at an error a part of it, from its beginning.
abbrev pub carried_out : {W : Type 0} → List Event → List Event → Ending (W × List Event) (Unit {0})
carried_out plan old = record {
  at_reply = λ _ s. s.1 ≡ onto plan old;
  at_status = λ _ _ s.
      (done : List Event) × (rest : List Event) × (plan ≡ done ++ rest) × (s.1 ≡ onto done old);
  at_wait = λ _. ⊥;
}

-- One deletion in front of a plan.
carried_out-cons :
    {W : Type 0} (e : Event) (plan old : List Event) (r : Outcome (Unit {0}) × (W × List Event))
    → Ends (carried_out plan (e ∷ old)) r
    → Ends (carried_out (e ∷ plan) old) r
carried_out-cons e plan old (reply _, t) h = h
carried_out-cons e plan old (status code message, t) (done, rest, split, log) =
    (e ∷ done, rest, ap (λ l. e ∷ l) split, log)
carried_out-cons e plan old (panics, t) h = h
carried_out-cons e plan old (still_waiting, t) h = h

module _ {W : Type 0} (c : Client W) where
  abbrev Log : Type 0
  Log = W × List Event

  -- A deletion that is asked for, and the rest behind it.
  deletes-Ends :
      (m : Method W (Unit {0})) (e : Event) (message : Text) (plan : List Event)
      (rest : Handler Log (Unit {0})) (s : Log)
      → ((w : W) → Ends (carried_out plan (e ∷ s.1)) (rest (w, e ∷ s.1)))
      → Ends (carried_out (e ∷ plan) s.1) ((call (deletes m e) message >> rest) s)
  deletes-Ends m e message plan rest s h = go (m s.0)
    where
      go :
          (r : Result (Unit {0}) × W)
          → Ends
              (carried_out (e ∷ plan) s.1)
              ((call {W = Log} (λ _. (r.0, (r.1, e ∷ s.1))) message >> rest) s)
      go (ok _, w) = carried_out-cons e plan s.1 (rest (w, e ∷ s.1)) (h w)
      go (err _, w) = (e ∷ [], plan, refl, refl)

  delete_luns-Ends :
      (luns : List ℤ) (s : Log)
      → Ends (carried_out (map lun_deleted luns) s.1) (delete_luns (recorded c) luns s)
  unfolding delete_luns
  delete_luns-Ends [] s = refl
  delete_luns-Ends (lun ∷ luns) s =
      deletes-Ends (c.delete_storage_iscsi_block_lun lun false) (lun_deleted lun) _
        (map lun_deleted luns) (delete_luns (recorded c) luns) s
        (λ w. delete_luns-Ends luns (w, lun_deleted lun ∷ s.1))

  delete_first-Ends :
      (name : Text) (ts : List StorageIscsiTargetInfo) (s : Log)
      → Ends (carried_out (deletions name ts) s.1) (delete_first (recorded c) name ts s)
  unfolding delete_first delete_target
  delete_first-Ends name [] s = refl
  delete_first-Ends name (t ∷ ts) s = elim (Bool-cases (text_eq t.name name)) [
    | inl same ↦ rw same (
        deletes-Ends (c.delete_storage_iscsi_target t.target_index) (target_deleted t.target_index)
          _ (map lun_deleted t.target_luns) (delete_luns (recorded c) t.target_luns) s
          (λ w. delete_luns-Ends t.target_luns (w, target_deleted t.target_index ∷ s.1)))
    | inr other ↦ rw other (delete_first-Ends name ts s)
  ]

  -- For every NAS and network: at a reply to DeleteVolume of a nonblank id, exactly the first
  -- listed target of that name and then each of its LUNs in turn have been asked to be deleted,
  -- nothing if no target has the name; at an error a beginning of these, and nothing else.
  pub delete_volume-carried_out :
      (id : Text) (s : Log)
      → Ends (carried_out (deletions id (listed c s.0)) s.1) (delete_volume (recorded c) id s)
  unfolding delete_volume
  delete_volume-carried_out id s = elim (Bool-cases (is_blank id)) [
    | inl blank ↦ rw blank ([], plan, refl, refl)
    | inr given ↦ rw given (
        Ends-call E (reads c.login) login_failed _ s
          (λ _ _.
            Ends-call E (reads c.get_storage_iscsi_target_list) list_failed _ s'
              (λ ts e.
                subst
                  (λ l.
                    Ends (carried_out (deletions id l) s.1) (delete_first (recorded c) id ts s''))
                  (ap targets_of (sym e)) (delete_first-Ends id ts s''))
              (λ _ _. ([], plan, refl, refl)))
          (λ _ _. ([], plan, refl, refl)))
  ]
    where
      plan : List Event
      plan = deletions id (listed c s.0)

      E : Ending Log (Unit {0})
      E = carried_out plan s.1

      s' : Log
      s' = ((c.login s.0).1, s.1)

      s'' : Log
      s'' = ((c.get_storage_iscsi_target_list s'.0).1, s.1)
