-- ===== src/Driver/Calls/Interleaved.antt =====
-- CreateVolume while other handlers act on the NAS between two of its calls.
pub mod Once
use qnap_csi.Base.{Bool, true, false, List, [], ◌∷◌, Text}
use qnap_csi.Base.Int.{ℤ, pos}
use qnap_csi.Qnap.Client.{Method, Client}

-- What the handlers ask of the NAS, but for the look of GetCapacity at the pool.
pub data Act : Type 0 where
  logs_in : Act
  lists : Act
  looks : ℤ → Act
  creates_target : Text → Act
  creates_initiator : ℤ → Act
  creates_lun : Text → ℤ → ℤ → Act
  attaches : ℤ → ℤ → Act
  deletes_target : ℤ → Act
  deletes_lun : ℤ → Act

module _ {W : Type 0} (c : Client W) where
  pub act : Act → W → W
  act logs_in w = (c.login w).1
  act lists w = (c.get_storage_iscsi_target_list w).1
  act (looks lun) w = (c.get_storage_iscsi_lun lun w).1
  act (creates_target name) w = (c.create_storage_iscsi_target name false false true w).1
  act (creates_initiator target) w =
      (c.create_storage_iscsi_initiator target false [] [] false [] [] w).1
  act (creates_lun name pool capacity) w =
      (c.create_storage_iscsi_block_lun name pool capacity false (pos 512) false false false false
        w).1
  act (attaches lun target) w = (c.attach_storage_iscsi_target_lun lun target w).1
  act (deletes_target target) w = (c.delete_storage_iscsi_target target w).1
  act (deletes_lun lun) w = (c.delete_storage_iscsi_block_lun lun false w).1

  pub acts : List Act → W → W
  unfolding act
  acts [] w = w
  acts (a ∷ now) w = acts now (act a w)

  -- The NAS, with what the others ask of it before each of the calls to come.
  abbrev pub Shared : Type 0
  Shared = W × List (List Act)

  -- What the others ask before the next call.
  pub others : Shared → Shared
  unfolding acts
  others (w, []) = (w, [])
  others (w, now ∷ rest) = (acts now w, rest)

  between : {A : Type 0} → Method W A → Method Shared A
  unfolding others
  between m s = let (w, rest) = others s in let (r, w') = m w in (r, (w', rest))

  pub interleaved : Client Shared
  unfolding between
  interleaved = record {
    login = between c.login;
    get_storage_pool_subscription = λ pool. between (c.get_storage_pool_subscription pool);
    get_storage_iscsi_lun = λ lun. between (c.get_storage_iscsi_lun lun);
    get_storage_iscsi_target_list = between c.get_storage_iscsi_target_list;
    create_storage_iscsi_target = λ name data_digest header_digest cluster.
        between (c.create_storage_iscsi_target name data_digest header_digest cluster);
    create_storage_iscsi_initiator = λ target chap user password both user_in password_in.
        between
          (c.create_storage_iscsi_initiator target chap user password both user_in password_in);
    delete_storage_iscsi_target = λ target. between (c.delete_storage_iscsi_target target);
    create_storage_iscsi_block_lun = λ name pool capacity thin sector wc fua cache tiering.
        between
          (c.create_storage_iscsi_block_lun name pool capacity thin sector wc fua cache tiering);
    delete_storage_iscsi_block_lun =
        λ lun background. between (c.delete_storage_iscsi_block_lun lun background);
    attach_storage_iscsi_target_lun =
        λ lun target. between (c.attach_storage_iscsi_target_lun lun target);
  }
