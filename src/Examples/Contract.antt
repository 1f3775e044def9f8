-- ===== src/Examples/Contract.antt =====
-- The NAS in memory keeps the contract.
use mathlib.Core.List.{map-append}
use qnap_csi.Base.{
  map, ◌≡◌, refl, sym, ap, ◌∙◌, [], ◌∷◌, ◌++◌, Text, lit, text_eq, arith, ℕ, ◌≤◌, inr, false,
}
use qnap_csi.Base.Int.{ℤ, pos, eq_ℤ_iff}
use qnap_csi.Qnap.Contract.{
  Contract, volumes_of, has_index, AreDistinct, without_index, without_name,
}
use qnap_csi.Driver.Handler.{Ends}
use qnap_csi.Driver.Create.{create_volume}
use qnap_csi.Driver.Create.Refines.{adds, create_volume-refines}
use qnap_csi.Driver.Delete.{delete_volume}
use qnap_csi.Driver.Delete.Refines.{leaves, delete_volume-refines}
use qnap_csi.Examples.Nas.{
  Nas, nas_client, with_iqn, next_index, new_target, without, with_lun, two_targets, libraries,
  config, request,
}

pub volumes_of-with_iqn : (w : Nas) → volumes_of (map with_iqn w) ≡ volumes_of w
volumes_of-with_iqn [] = refl
volumes_of-with_iqn (t ∷ ts) = ap (λ vs. (t.target_index, t.name) ∷ vs) (volumes_of-with_iqn ts)

pub volumes_of-without :
    (i : ℤ) (w : Nas) → volumes_of (without i w) ≡ without_index i (volumes_of w)
volumes_of-without i [] = refl
volumes_of-without i (t ∷ ts) = ground (arith, volumes_of-without i ts)

pub volumes_of-with_lun : (i lun : ℤ) (w : Nas) → volumes_of (with_lun i lun w) ≡ volumes_of w
volumes_of-with_lun i lun [] = refl
volumes_of-with_lun i lun (t ∷ ts) = ground (arith, volumes_of-with_lun i lun ts)

pub volumes_of-added :
    (name : Text) (w : Nas) (j i : ℤ)
    → j ≡ i
    → volumes_of (w ++ new_target j name ∷ []) ≡ volumes_of w ++ (i, name) ∷ []
volumes_of-added name w j i e =
    map-append (λ t. (t.target_index, t.name)) w (new_target j name ∷ [])
    ∙ ap (λ k. volumes_of w ++ (k, name) ∷ []) e

pub next_index-fresh :
    (n : ℕ) (w : Nas) → next_index w ≤ n → has_index (pos n) (volumes_of w) ≡ false
next_index-fresh n [] h = refl
next_index-fresh n (t ∷ ts) h =
    ground (arith, next_index-fresh n ts, (eq_ℤ_iff t.target_index (pos n)).0)

abbrev pub nas-Contract : Contract nas_client
nas-Contract = record {
  volumes = volumes_of;
  login = λ w. refl;
  list = λ w. refl;
  listed = λ w ts e. ap volumes_of (sym (cc e)) ∙ volumes_of-with_iqn w;
  delete_target = λ i w e. volumes_of-without i w;
  delete_target_any = λ i w. inr (volumes_of-without i w);
  delete_lun = λ i background w. refl;
  create_target = λ name d h cl w i e. volumes_of-added name w (pos (next_index w)) i (cc e);
  create_target_any = λ name d h cl w. inr (
    pos (next_index w),
    next_index-fresh (next_index w) w (omega arith),
    volumes_of-added name w (pos (next_index w)) (pos (next_index w)) refl,
  );
  create_initiator = λ target w. refl;
  create_lun = λ name pool capacity w. refl;
  look = λ lun w. refl;
  attach = λ lun target w. volumes_of-with_lun target lun w;
}

pub two_targets-AreDistinct : AreDistinct (volumes_of two_targets)
unfolding text_eq lit
two_targets-AreDistinct = (refl, refl, (refl, refl, tt))

delete_volume-refines_example :
    Ends
      (leaves nas_client nas-Contract (without_name (lit "b2") (volumes_of two_targets)))
      (delete_volume nas_client (lit "b2") two_targets)
delete_volume-refines_example =
    delete_volume-refines nas_client nas-Contract (lit "b2") two_targets two_targets-AreDistinct

create_volume-refines_example :
    Ends
      (adds nas_client nas-Contract two_targets)
      (create_volume nas_client libraries config 3 request two_targets)
create_volume-refines_example =
    create_volume-refines nas_client nas-Contract libraries config 3 request two_targets
